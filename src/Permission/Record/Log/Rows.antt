-- ===== src/Permission/Record/Log/Rows.antt =====
-- The lines of the log file of permission/perm_manager.c: its loops of writing and of reading, over
-- the documented calls of the C library on a device that does not fail.
use mathlib.Core.List.{append_assoc, append-nil}
use frameworks_security.Base.{
  ℕ, zero, suc, ◌+◌, ◌-◌, ◌^◌, ◌≡◌, ◌≢◌, refl, sym, ap, ◌∙◌, ◌<◌, true, Option, none, some, List,
  [], ◌∷◌, ◌++◌, length, length-append, put, put_self, put-put, put_same, arith,
}
use frameworks_security.Device.Info.{fgets, newline}
use frameworks_security.Device.Info.Lookup.{fgets-line}
use frameworks_security.Permission.Types.{noerror}
use frameworks_security.Permission.Store.{Unqlite, Path-discrete}
use frameworks_security.Permission.Record.{PermissionRecord, PermlogQueue}
use frameworks_security.Permission.Record.Log.{
  LogStreams, record_message, write_records, next_record, load_loop, read_line,
}
use frameworks_security.Permission.Record.Log.Lines.{
  Loggable, entry, body, body-Lacks, length-body, record_message-body, read_line-entry,
}

-- The text of a file that need not be there.
abbrev pub text_of : Option (List ℕ) → List ℕ
text_of none = []
text_of (some bytes) = bytes

-- The names and the time of a record.
abbrev pub Row : Type 0
Row = List ℕ × List ℕ × ℕ

abbrev pub records_of : List Row → List PermissionRecord
records_of [] = []
records_of ((p, m, n) ∷ rows) = entry p m n ∷ records_of rows

-- Rows whose lines have room in `log_len` bytes and can be told apart.
abbrev pub AllLoggable : ℕ → List Row → Type 0
AllLoggable log_len [] = Unit
AllLoggable log_len ((p, m, n) ∷ rows) =
    (Loggable p m × (length p + length m + 24 < log_len) × (n < 2 ^ 64)) × AllLoggable log_len rows

abbrev pub text : ℕ → List Row → List ℕ
text log_len [] = []
text log_len ((p, m, n) ∷ rows) = record_message log_len (entry p m n) ++ text log_len rows

pub text-append :
    (log_len : ℕ) (xs ys : List Row) → text log_len (xs ++ ys) ≡ text log_len xs ++ text log_len ys
text-append log_len [] ys = refl
text-append log_len ((p, m, n) ∷ xs) ys =
    ap (record_message log_len (entry p m n) ++◌) (text-append log_len xs ys)
    ∙ sym (append_assoc (record_message log_len (entry p m n)) (text log_len xs) (text log_len ys))

pub records_of-append : (xs ys : List Row) → records_of (xs ++ ys) ≡ records_of xs ++ records_of ys
records_of-append [] ys = refl
records_of-append ((p, m, n) ∷ xs) ys = ap (entry p m n ∷◌) (records_of-append xs ys)

pub AllLoggable-append :
    (log_len : ℕ) (xs ys : List Row)
    → AllLoggable log_len xs
    → AllLoggable log_len ys
    → AllLoggable log_len (xs ++ ys)
AllLoggable-append log_len [] ys h k = k
AllLoggable-append log_len ((p, m, n) ∷ xs) ys (one, h) k =
    (one, AllLoggable-append log_len xs ys h k)

pub queued :
    {xs ys : List PermissionRecord} {a b : ℕ}
    → xs ≡ ys
    → a ≡ b
    → ◌≡◌ {A = PermlogQueue} (record { queue = xs; logn = a }) (record { queue = ys; logn = b })
queued e f = cc

-- The files of a device on which no call fails, as the C library documents the calls.
pub record LogLaws (u : Unqlite) (s : LogStreams u) : Type 0 where
  pub files : u.World → List ℕ → Option (List ℕ)
  pub streams : u.World → ℕ → Option (List ℕ)
  pub mkdir_law : (w : u.World) → ((u.mkdir w).0 ≡ true) × (files (u.mkdir w).1 ≡ files w)
  pub append_law :
      (path : List ℕ) (w : u.World)
      → (f : ℕ) × (w' : u.World) × (s.fopen_append path w ≡ (some f, w'))
        × (files w' ≡ put Path-discrete (files w) path (some (text_of (files w path))))
        × (streams w' f ≡ some path)
  pub fputs_law :
      (f : ℕ) (path old bytes : List ℕ) (w : u.World)
      → streams w f ≡ some path
      → files w path ≡ some old
      → (files (s.fputs f bytes w) ≡ put Path-discrete (files w) path (some (old ++ bytes)))
        × (streams (s.fputs f bytes w) f ≡ some path)
  pub fclose_law : (f : ℕ) (w : u.World) → files (s.fclose f w) ≡ files w
  pub rename_law :
      (from to bytes : List ℕ) (w : u.World)
      → files w from ≡ some bytes
      → files (s.rename from to w)
        ≡ put Path-discrete (put Path-discrete (files w) from none) to (some bytes)
  pub read_law :
      (path bytes : List ℕ) (w : u.World)
      → files w path ≡ some bytes
      → (f : ℕ) × (w' : u.World) × (s.fopen_read path w ≡ (some (f, bytes), w'))
        × (files w' ≡ files w)
  pub line_law :
      (w : u.World)
      → (p : ℕ) × (w' : u.World) × (s.malloc_line w ≡ (some p, w')) × (files w' ≡ files w)
  pub log_law :
      (w : u.World)
      → (p : ℕ) × (w' : u.World) × (s.malloc_log w ≡ (some p, w')) × (files w' ≡ files w)
  pub free_law : (p : ℕ) (w : u.World) → files (s.free p w) ≡ files w

module _ (u : Unqlite) (s : LogStreams u) (laws : LogLaws u s) (log_len : ℕ)
    (record_file : List ℕ) where
  open u use {World}
  open laws use {files, streams}

  pub write_records-text :
      (f : ℕ) (path old : List ℕ) (rows : List Row) (w : World)
      → streams w f ≡ some path
      → files w path ≡ some old
      → files (write_records u s log_len record_file f (records_of rows) w)
        ≡ put Path-discrete (files w) path (some (old ++ text log_len rows))
  unfolding write_records
  write_records-text f path old [] w at holds = sym (
      put_same Path-discrete (files w) path (some (old ++ []))
        (holds ∙ ap some (sym (append-nil old))))
  write_records-text f path old ((p, m, n) ∷ rows) w at holds =
      let line = record_message log_len (entry p m n) in
      let (wrote, at') = laws.fputs_law f path old line w at holds in
      write_records-text f path (old ++ line) rows (s.fputs f line w) at'
        (rw wrote (put_self Path-discrete (files w) path (some (old ++ line))))
      ∙ rw (wrote, put-put, append_assoc)

  load_loop-step :
      (k p : ℕ) (bytes line rest : List ℕ) (r : PermissionRecord) (q : PermlogQueue) (w w' : World)
      → bytes ≢ []
      → fgets (log_len - 1) bytes ≡ (line, rest)
      → s.malloc_log w ≡ (some p, w')
      → read_line line ≡ some (some r)
      → load_loop u s log_len record_file (suc k) bytes q w
        ≡ load_loop u s log_len record_file k rest
            (record { queue = q.queue ++ r ∷ []; logn = q.logn + 1 })
            w'
  load_loop-step k p [] line rest r q w w' some_bytes e made reads = absurd (some_bytes refl)
  load_loop-step k p (b ∷ bs) line rest r q w w' some_bytes e made reads =
      unfold load_loop next_record in rw (e, made, reads)

  -- The first line of a text of rows, and what fgets takes of it.
  first_line :
      (p m : List ℕ) (n : ℕ) (rows : List Row)
      → Loggable p m
      → length p + length m + 24 < log_len
      → (text log_len ((p, m, n) ∷ rows) ≡ body p m n ++ (newline ∷ text log_len rows))
        × (fgets (log_len - 1) (text log_len ((p, m, n) ∷ rows))
            ≡ (body p m n ++ newline ∷ [], text log_len rows))
  first_line p m n rows names room =
      let e : text log_len ((p, m, n) ∷ rows) ≡ body p m n ++ (newline ∷ text log_len rows) =
        ap (◌++ text log_len rows) (record_message-body log_len p m n names room)
        ∙ append_assoc (body p m n) (newline ∷ []) (text log_len rows) in
      let lacks = body-Lacks newline p m n (omega arith) names.3 names.6 in
      (
        e,
        ap (fgets (log_len - 1)) e
            ∙ fgets-line (log_len - 1) (body p m n) (text log_len rows) lacks
                (omega (arith, length-body p m n)),
      )

  pub load_loop-text :
      (k : ℕ) (rows : List Row) (q : PermlogQueue) (w : World)
      → AllLoggable log_len rows
      → length rows < k
      → (w' : World) × (load_loop u s log_len record_file k (text log_len rows) q w
          ≡ some (
            noerror,
            record { queue = q.queue ++ records_of rows; logn = q.logn + length rows },
            w',
          ))
        × (files w' ≡ files w)
  load_loop-text zero rows q w fit enough = absurd (omega arith)
  load_loop-text (suc k) [] q w fit enough = (
    w,
    unfold load_loop in
        ap (λ t. some (noerror, t, w)) (queued (sym (append-nil q.queue)) (omega arith)),
    refl,
  )
  load_loop-text (suc k) ((p, m, n) ∷ rows) q w ((names, room, small), fit) enough =
      let (a, w1, made, same1) = laws.log_law w in
      let (line_eq, taken) = first_line p m n rows names room in
      let q1 : PermlogQueue = record { queue = q.queue ++ entry p m n ∷ []; logn = q.logn + 1 } in
      let (w2, done, same2) = load_loop-text k rows q1 w1 fit (omega arith) in
      (
        w2,
        load_loop-step k a (text log_len ((p, m, n) ∷ rows)) (body p m n ++ newline ∷ [])
              (text log_len rows) (entry p m n) q w w1
              (λ e. absurd (
                omega (
                  arith,
                  ap length line_eq,
                  ap length e,
                  length-append (body p m n) (newline ∷ text log_len rows),
                )))
              taken made (read_line-entry p m n names small)
            ∙ done
            ∙ ap (λ t. some (noerror, t, w2))
                (queued (append_assoc q.queue (entry p m n ∷ []) (records_of rows)) (omega arith)),
        same2 ∙ same1,
      )
