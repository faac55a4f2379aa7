-- ===== src/Permission/Record/Log/RoundTrip.antt =====
-- save_perm_record and load_perm_record of permission/perm_manager.c in a row.
use native.Mathlib.Nat.{zero-add}
use frameworks_security.Base.{
  ℕ, suc, ◌+◌, ◌≡◌, ◌≢◌, refl, sym, ap, ◌∙◌, ◌≤◌, none, some, List, [], ◌∷◌, ◌++◌, length, codes,
  length-append, put, put_self, put_ne, put-put, put_same, arith,
}
use frameworks_security.Device.Info.{newline}
use frameworks_security.Permission.Types.{noerror}
use frameworks_security.Permission.Store.{Path-discrete, Unqlite}
use frameworks_security.Permission.Access.{check_permission_dir}
use frameworks_security.Permission.Record.{PermlogQueue, g_permlog}
use frameworks_security.Permission.Record.Log.{
  LogStreams, log_path, write_records, saved, save_perm_record, end_load, load_file, load_opened,
  load_perm_record, record_message,
}
use frameworks_security.Permission.Record.Log.Lines.{entry, body, record_message-body}
use frameworks_security.Permission.Record.Log.Rows.{
  LogLaws, Row, text_of, records_of, AllLoggable, text, text-append, records_of-append,
  AllLoggable-append, queued, write_records-text, load_loop-text,
}

length-text :
    (log_len : ℕ) (rows : List Row)
    → AllLoggable log_len rows
    → length rows ≤ length (text log_len rows)
length-text log_len [] fit = omega arith
length-text log_len ((p, m, n) ∷ rows) ((names, room, small), fit) =
    let line = record_message log_len (entry p m n) in
    omega (
      arith,
      length-text log_len rows fit,
      length-append line (text log_len rows),
      ap length (record_message-body log_len p m n names room),
      length-append (body p m n) (newline ∷ []),
    )

length-records : (rows : List Row) → length (records_of rows) ≡ length rows
length-records [] = refl
length-records ((p, m, n) ∷ rows) = ap suc (length-records rows)

module _ (u : Unqlite) (s : LogStreams u) (laws : LogLaws u s) (log_len : ℕ)
    (record_file : List ℕ) where
  open u use {World}
  open laws use {files}

  abbrev pub tmp_path : List ℕ
  tmp_path = log_path (codes "tmp.log")

  abbrev pub record_path : List ℕ
  record_path = log_path record_file

  -- What save_perm_record leaves: the records behind what the temporary file held.
  save_writes :
      (rows : List Row) (q : PermlogQueue) (w : World)
      → q.queue ≡ records_of rows
      → (w1 : World) × (save_perm_record u s log_len record_file q w ≡ (noerror, w1))
        × (files w1
            ≡ put Path-discrete
                (put Path-discrete (files w) tmp_path none)
                record_path
                (some (text_of (files w tmp_path) ++ text log_len rows)))
  unfolding save_perm_record saved
  save_writes rows q w holds =
      let base = text_of (files w tmp_path) in
      let (f, w0, opened, at, stream) = laws.append_law tmp_path w in
      let w1 = write_records u s log_len record_file f (records_of rows) w0 in
      let wrote : files w1
          ≡ put Path-discrete (files w0) tmp_path (some (base ++ text log_len rows)) =
        write_records-text u s laws log_len record_file f tmp_path base rows w0 stream
          (rw at (put_self Path-discrete (files w) tmp_path (some base))) in
      let closed = laws.fclose_law f w1 ∙ wrote in
      let held : files (s.fclose f w1) tmp_path ≡ some (base ++ text log_len rows) =
        rw closed (put_self Path-discrete (files w0) tmp_path (some (base ++ text log_len rows))) in
      (
        s.rename tmp_path record_path (s.fclose f w1),
        ap (λ o. saved u s log_len record_file q.queue o) opened
            ∙ ap (λ rs. saved u s log_len record_file rs (some f, w0)) holds,
        laws.rename_law tmp_path record_path (base ++ text log_len rows) (s.fclose f w1) held
            ∙ rw (closed, at, put-put, put-put),
      )

  -- What load_perm_record makes of a file of records, where none is in the queue.
  load_reads :
      (rows : List Row) (w : World)
      → AllLoggable log_len rows
      → files w record_path ≡ some (text log_len rows)
      → (w2 : World) × (load_perm_record u s log_len record_file g_permlog w
          ≡ some (noerror, record { queue = records_of rows; logn = length rows }, w2))
        × (files w2 ≡ files w)
  unfolding load_perm_record load_opened load_file end_load check_permission_dir
  load_reads rows w fit holds =
      let (made, same1) = laws.mkdir_law w in
      let w1 = (u.mkdir w).1 in
      let (f, w2, opened, same2) =
        laws.read_law record_path (text log_len rows) w1 (rw same1 holds) in
      let (a, w3, given, same3) = laws.line_law w2 in
      let (w4, done, same4) =
        load_loop-text u s laws log_len record_file (suc (length (text log_len rows))) rows
          g_permlog w3 fit (omega (arith, length-text log_len rows fit)) in
      (
        s.fclose f (s.free a w4),
        rw (made, opened, given, done)
            (ap (λ q'. some (noerror, q', s.fclose f (s.free a w4)))
              (queued refl (zero-add (length rows)))),
        laws.fclose_law f (s.free a w4) ∙ laws.free_law a w4 ∙ same4 ∙ same3 ∙ same2 ∙ same1,
      )

  -- A queue of records that their lines have room for and keep apart comes back from the file: where
  -- no temporary file is left over, save_perm_record succeeds, and load_perm_record then makes the
  -- same queue of an empty one. No other file changes, on a device where no call fails.
  pub save_then_load :
      (rows : List Row) (q : PermlogQueue) (w : World)
      → AllLoggable log_len rows
      → q.queue ≡ records_of rows
      → q.logn ≡ length rows
      → files w tmp_path ≡ none
      → (w1 w2 : World) × (save_perm_record u s log_len record_file q w ≡ (noerror, w1))
        × (load_perm_record u s log_len record_file g_permlog w1 ≡ some (noerror, q, w2))
        × ((path : List ℕ) → path ≢ record_path → files w2 path ≡ files w path)
  save_then_load rows q w fit holds counted fresh =
      let (w1, saves, after) = save_writes rows q w holds in
      let (w2, loads, same) =
        load_reads rows w1 fit (rw (after, fresh) (put_self Path-discrete _ _ _)) in
      (
        w1,
        w2,
        saves,
        loads ∙ ap (λ q'. some (noerror, q', w2)) (queued (sym holds) (sym counted)),
        λ path other.
            rw (same, after)
              (put_ne Path-discrete _ record_path _ path other
                ∙ ap (λ m. m path) (put_same Path-discrete (files w) tmp_path none fresh)),
      )

  -- save_perm_record appends to a temporary file that an earlier run has left. On a device where no
  -- call fails, if that file has whole lines, of records that their lines have room for and keep apart,
  -- and the records of the queue are such, load_perm_record then makes of an empty queue one that has
  -- the records of the file before those of the queue, however many the two are together.
  pub save_after_crash :
      (old rows : List Row) (q : PermlogQueue) (w : World)
      → AllLoggable log_len old
      → AllLoggable log_len rows
      → q.queue ≡ records_of rows
      → files w tmp_path ≡ some (text log_len old)
      → (w1 w2 : World) × (save_perm_record u s log_len record_file q w ≡ (noerror, w1))
        × (load_perm_record u s log_len record_file g_permlog w1
            ≡ some (
              noerror,
              record { queue = records_of old ++ q.queue; logn = length old + length q.queue },
              w2,
            ))
  save_after_crash old rows q w fit_old fit holds left =
      let (w1, saves, after) = save_writes rows q w holds in
      let (w2, loads, same) =
        load_reads (old ++ rows) w1 (AllLoggable-append log_len old rows fit_old fit)
          (rw (after, left, text-append) (put_self Path-discrete _ _ _)) in
      (
        w1,
        w2,
        saves,
        loads
            ∙ ap (λ q'. some (noerror, q', w2))
                (queued (records_of-append old rows ∙ ap (records_of old ++◌) (sym holds))
                  (omega (arith, length-append old rows, ap length holds, length-records rows))),
      )
