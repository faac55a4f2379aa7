-- ===== src/Permission/Record/Tests.antt =====
-- The record queue of permission/perm_manager.c at concrete inputs: two records are kept at most,
-- for one day.
use frameworks_security.Base.{ℕ, ◌≡◌, refl, true, false, List, [], ◌∷◌, some, arith}
use frameworks_security.Permission.Types.{noerror, codes, strncpy, pkg_name_len, perm_name_len}
use frameworks_security.Permission.Record.{
  PermissionRecord, PermlogQueue, get_perm_record, record_permission_event,
}
use frameworks_security.Permission.Record.Bounds.{IsValid, record_permission_event-IsValid}
use frameworks_security.Permission.Record.Expiry.{
  Event, IsOrdered, recent, retotal_loop-recent, record_events, record_events_lem,
}
use frameworks_security.Permission.Record.Read.{get_perm_record_newest}
use frameworks_security.Permission.Record.{retotal_loop}

abbrev entry : ℕ → PermissionRecord
entry t = record {
  pkgname = codes "com.example.app";
  permname = codes "vela.permission.NFC";
  recordtime = t;
}

abbrev two : PermlogQueue
two = record { queue = entry 1000 ∷ entry 90000 ∷ []; logn = 2 }

two-IsValid : IsValid 2 two
two-IsValid = record { counted = refl; bounded = omega arith }

-- A day after time 1000 the first of the two records goes.
retotal_loop-recent_example : (retotal_loop 86400 90000 two.queue 2).queue ≡ entry 90000 ∷ []
unfolding recent
retotal_loop-recent_example = retotal_loop-recent 86400 90000 0 90000 two.queue 2 (omega arith)

abbrev events : List Event
events =
    record {
      allocated = true;
      curtime = 90001;
      rawtime = 90002;
      package_name = codes "com.example.app";
      perm_name = codes "vela.permission.NFC";
    }
    ∷ record {
      allocated = false;
      curtime = 90003;
      rawtime = 90003;
      package_name = codes "com.example.app";
      perm_name = codes "vela.permission.NFC";
    }
    ∷ []

record_events_lem_example :
    IsValid 2 (record_events 1 2 events two)
    × IsOrdered 3603 90003 (record_events 1 2 events two).queue
record_events_lem_example =
    record_events_lem 1 2 events two 0 90000 two-IsValid (omega arith) (omega arith)

get_perm_record_newest_example :
    (older : List PermissionRecord) × (get_perm_record 2
        (record_permission_event 1 2 true 90001 90002 (codes "app") (codes "perm") two).1
      ≡ some (
        noerror,
        record {
          pkgname = strncpy pkg_name_len (codes "app");
          permname = strncpy perm_name_len (codes "perm");
          recordtime = 90002;
        }
            ∷ older,
      ))
get_perm_record_newest_example =
    get_perm_record_newest 1 2 2 90001 90002 (codes "app") (codes "perm") two two-IsValid
      (omega arith)
      (record_permission_event-IsValid 1 2 true 90001 90002 (codes "app") (codes "perm") two
        two-IsValid).bounded
