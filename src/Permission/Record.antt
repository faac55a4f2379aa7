-- ===== src/Permission/Record.antt =====
-- The permission records of permission/perm_manager.c (CONFIG_PERM_RECORD): the queue g_permlog and
-- its operations. The lock is held over each of them, so an operation is one step.
pub mod Bounds
pub mod Expiry
pub mod Log
pub mod Read
mod Tests
use frameworks_security.Base.{
  ℕ, suc, ◌+◌, ◌-◌, Bool, true, false, Option, none, some, List, [], ◌∷◌, ◌++◌, map, reverse,
  length, ltb, leb, if◌then◌else◌,
}
use frameworks_security.Permission.Types.{
  PermError, noerror, generic_error, perm_name_len, pkg_name_len, record_keep_time, strncpy,
}

-- struct permission_record
pub record PermissionRecord : Type 0 where
  pub pkgname : List ℕ
  pub permname : List ℕ
  pub recordtime : ℕ

-- struct permlog_queue, oldest record first.
pub record PermlogQueue : Type 0 where
  pub queue : List PermissionRecord
  pub logn : ℕ

-- g_permlog
abbrev pub g_permlog : PermlogQueue
g_permlog = record { queue = []; logn = 0 }

-- TAILQ_REMOVE of TAILQ_FIRST, and `logn--`.
unfoldable pub remove_first : List PermissionRecord → PermlogQueue → PermlogQueue
remove_first [] q = q
remove_first (_ ∷ rest) q = record { queue = rest; logn = q.logn - 1 }

-- add_perm_record, for CONFIG_PERM_RECORD_MAX_COUNT.
unfoldable pub add_perm_record : ℕ → PermissionRecord → PermlogQueue → PermlogQueue
unfolding remove_first
add_perm_record max_count log q =
    let q' : PermlogQueue = record { queue = q.queue ++ log ∷ []; logn = q.logn + 1 } in
    if ltb max_count q'.logn then remove_first q'.queue q' else q'

-- The loop of retotal_perm_record at the time `curtime`: the first record stays if
-- `difftime(curtime, recordtime) <= RECORD_KEEP_TIME(days)`.
unfoldable pub retotal_loop : ℕ → ℕ → List PermissionRecord → ℕ → PermlogQueue
retotal_loop keep curtime [] logn = record { queue = []; logn = logn }
retotal_loop keep curtime (log ∷ rest) logn =
    let rest' = retotal_loop keep curtime rest (logn - 1) in
    if leb curtime (log.recordtime + keep)
    then record { queue = log ∷ rest; logn = logn }
    else rest'

-- retotal_perm_record
unfoldable pub retotal_perm_record : ℕ → ℕ → PermlogQueue → PermlogQueue
unfolding retotal_loop
retotal_perm_record days curtime q = retotal_loop (record_keep_time days) curtime q.queue q.logn

-- record_permission_event. `allocated` says whether malloc gave memory; the clock is read twice.
unfoldable pub record_permission_event :
    ℕ → ℕ → Bool → ℕ → ℕ → List ℕ → List ℕ → PermlogQueue → PermError × PermlogQueue
record_permission_event keep_days max_count allocated curtime rawtime package_name perm_name q =
    let q' = retotal_perm_record keep_days curtime q in
    if allocated
    then (
      noerror,
      add_perm_record max_count
          (record {
            pkgname = strncpy pkg_name_len package_name;
            permname = strncpy perm_name_len perm_name;
            recordtime = rawtime;
          })
          q',
    )
    else (generic_error, q')

-- The copy that get_perm_record makes of one record.
unfoldable pub copy_record : PermissionRecord → PermissionRecord
copy_record r = record {
  pkgname = strncpy pkg_name_len r.pkgname;
  permname = strncpy perm_name_len r.permname;
  recordtime = r.recordtime;
}

-- get_perm_record with `record == NULL`: the number of records.
unfoldable pub count_perm_record : PermlogQueue → PermError × ℕ
count_perm_record q = (noerror, q.logn)

-- get_perm_record into an array of `room` records, newest first. `none` is a write past its end.
unfoldable pub get_perm_record : ℕ → PermlogQueue → Option (PermError × List PermissionRecord)
get_perm_record room q =
    if leb (length q.queue) room then some (noerror, map copy_record (reverse q.queue)) else none
