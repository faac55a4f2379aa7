-- ===== src/Permission/Record/Log/Tests.antt =====
-- Lines of the log file of permission/perm_manager.c at concrete inputs.
use frameworks_security.Base.{
  ℕ, ◌+◌, ◌≡◌, ◌≢◌, refl, none, some, List, [], ◌∷◌, ◌++◌, replicate, length, Lacks, ◌<◌, put,
  put_self, arith,
}
use frameworks_security.Permission.Types.{codes, strncpy, pkg_name_len, perm_name_len, noerror}
use frameworks_security.Permission.Record.{PermissionRecord, PermlogQueue, g_permlog}
use frameworks_security.Permission.Record.Log.{
  record_message, read_line, save_perm_record, load_perm_record, log_path,
}
use frameworks_security.Device.Info.{newline}
use frameworks_security.Permission.Record.Log.Lines.{Loggable}
use frameworks_security.Permission.Store.{Path-discrete}
use frameworks_security.Permission.Record.Log.Rows.{Row, AllLoggable, records_of, text}
use frameworks_security.Permission.Record.Log.RoundTrip.{
  record_path, save_then_load, save_after_crash,
}
use frameworks_security.Permission.Record.Log.Disk.{Disk, disk, streams, disk_laws}

abbrev entry : List ℕ → List ℕ → PermissionRecord
entry package_name perm_name = record {
  pkgname = strncpy pkg_name_len package_name;
  permname = strncpy perm_name_len perm_name;
  recordtime = 90002;
}

-- A record is read back from its line.
record_read :
    read_line (record_message 128 (entry (codes "com.app") (codes "vela.permission.NFC")))
    ≡ some (some (entry (codes "com.app") (codes "vela.permission.NFC")))
unfolding read_line record_message strncpy
record_read = refl

-- A package with a '-' in its name comes back as another.
dash_read :
    read_line (record_message 128 (entry (codes "my-app") (codes "NFC")))
    ≡ some (some (entry (codes "my") (codes "app-NFC")))
unfolding read_line record_message strncpy
dash_read = refl

-- A permission's name of 35 bytes, which fits its array, is read back past the end of it.
long_read : read_line (record_message 128 (entry (codes "app") (replicate 35 b'a'))) ≡ none
unfolding read_line record_message strncpy
long_read = refl

-- Two records, and a disk on which there is nothing.
abbrev app : List ℕ
app = codes "com.app"

abbrev rows : List Row
rows = (app, codes "vela.permission.NFC", 90002) ∷ (app, codes "vela.permission.RECORD", 90010) ∷ []

abbrev two : PermlogQueue
two = record { queue = records_of rows; logn = 2 }

abbrev empty : Disk
empty = record { files = λ _. none; appending = none }

some_app : app ≢ []
some_app e = cc

app_fits :
    (m : List ℕ) → Lacks 0 m × Lacks newline m × (length m + 1 < perm_name_len) → Loggable app m
app_fits m (m0, mn, fits) =
    (some_app, omega arith, omega arith, omega arith, omega arith, m0, mn, fits)

rows_fit : AllLoggable 128 rows
rows_fit = (
  (app_fits (codes "vela.permission.NFC") (omega arith), omega arith, omega arith),
  ((app_fits (codes "vela.permission.RECORD") (omega arith), omega arith, omega arith), tt),
)

save_then_load_example :
    (w1 w2 : Disk) × (save_perm_record disk streams 128 (codes "perm.log") two empty
      ≡ (noerror, w1))
    × (load_perm_record disk streams 128 (codes "perm.log") g_permlog w1 ≡ some (noerror, two, w2))
    × ((path : List ℕ)
        → path ≢ record_path disk streams disk_laws 128 (codes "perm.log")
        → w2.files path ≡ none)
save_then_load_example =
    save_then_load disk streams disk_laws 128 (codes "perm.log") rows two empty rows_fit refl refl
      refl

-- A disk on which an earlier run has left its temporary file.
abbrev crashed : Disk
crashed = record {
  files = put Path-discrete (λ _. none) (log_path (codes "tmp.log")) (some (text 128 rows));
  appending = none;
}

save_after_crash_example :
    (w1 w2 : Disk) × (save_perm_record disk streams 128 (codes "perm.log") two crashed
      ≡ (noerror, w1))
    × (load_perm_record disk streams 128 (codes "perm.log") g_permlog w1
        ≡ some (noerror, record { queue = records_of rows ++ two.queue; logn = 2 + 2 }, w2))
save_after_crash_example =
    save_after_crash disk streams disk_laws 128 (codes "perm.log") rows rows two crashed rows_fit
      rows_fit refl (put_self Path-discrete _ (log_path (codes "tmp.log")) (some (text 128 rows)))
