-- ===== src/Permission/Record/Log/Fuel.antt =====
-- The loop of load_perm_record of permission/perm_manager.c comes to the end of any file, where
-- CONFIG_PERM_RECORD_LOG_LEN is 2 at least.
use frameworks_security.Base.{
  ℕ, zero, suc, ◌-◌, ◌≡◌, refl, ◌≤◌, ◌<◌, Option, none, some, List, [], ◌∷◌, length, arith,
}
use frameworks_security.Device.Info.{fgets}
use frameworks_security.Device.Info.Fuel.{fgets-takes}
use frameworks_security.Permission.Types.{PermError}
use frameworks_security.Permission.Store.{Unqlite}
use frameworks_security.Permission.Record.{PermissionRecord, PermlogQueue}
use frameworks_security.Permission.Record.Log.{LogStreams, next_record, load_loop, read_line}

below : (a b n : ℕ) → a ≤ b → suc b < suc n → a < n
below a b n h lt = omega arith

fgets-takes_one : (n x : ℕ) (xs : List ℕ) → 1 ≤ n → length (fgets n (x ∷ xs)).1 ≤ length xs
fgets-takes_one zero x xs h = absurd (omega arith)
fgets-takes_one (suc n) x xs h = fgets-takes n x xs

module _ (u : Unqlite) (s : LogStreams u) (log_len : ℕ) (record_file : List ℕ) where
  open u use {World}

  -- The rest of the loop matters at each queue only.
  next_record-ext :
      (log : Option ℕ) (line : Option (Option PermissionRecord))
      (f g : PermlogQueue → Option (PermError × PermlogQueue × World)) (q : PermlogQueue)
      (w : World)
      → ((q' : PermlogQueue) → f q' ≡ g q')
      → next_record u s log_len record_file log line f q w
        ≡ next_record u s log_len record_file log line g q w
  unfolding next_record
  next_record-ext none line f g q w h = refl
  next_record-ext (some p) none f g q w h = refl
  next_record-ext (some p) (some none) f g q w h = refl
  next_record-ext (some p) (some (some r)) f g q w h = h _

  -- Any two amounts of fuel that exceed the number of bytes of the file give the same, where a line
  -- has room for two bytes.
  load_loop_fuel :
      (m n : ℕ) (bytes : List ℕ) (q : PermlogQueue) (w : World)
      → 2 ≤ log_len
      → length bytes < m
      → length bytes < n
      → load_loop u s log_len record_file m bytes q w
        ≡ load_loop u s log_len record_file n bytes q w
  unfolding load_loop
  load_loop_fuel zero n bytes q w room hm hn = absurd (omega arith)
  load_loop_fuel (suc m) zero bytes q w room hm hn = absurd (omega arith)
  load_loop_fuel (suc m) (suc n) [] q w room hm hn = refl
  load_loop_fuel (suc m) (suc n) (b ∷ bs) q w room hm hn =
      let rest = (fgets (log_len - 1) (b ∷ bs)).1 in
      let takes = fgets-takes_one (log_len - 1) b bs (omega arith) in
      let (log, w1) = s.malloc_log w in
      next_record-ext log (read_line (fgets (log_len - 1) (b ∷ bs)).0)
        (λ q'. load_loop u s log_len record_file m rest q' w1)
        (λ q'. load_loop u s log_len record_file n rest q' w1) q w1
        (λ q'.
          load_loop_fuel m n rest q' w1 room (below (length rest) (length bs) m takes hm)
            (below (length rest) (length bs) n takes hn))
