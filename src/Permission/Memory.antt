-- ===== src/Permission/Memory.antt =====
-- A database in memory, with one database and one cursor at a time: the
-- interface of Permission/Store at a concrete state, with its laws.
use frameworks_security.Base.{
  Bool, if◌then◌else◌, bytes_eq, bytes_eq_refl, bytes_eq_sound, Bool-cases, ◌≡◌, ◌≢◌, ◌∙◌, sym, ap,
  put_same, ◌⊎◌, ℕ, refl, true, false, Option, none, some, List, [], ◌∷◌, take, put, ℕ_discrete,
  inl, inr, Option-cases, bytes_eq, if◌then◌else◌, arith,
}
use frameworks_security.Permission.Types.{pos}
use frameworks_security.Permission.Update.Laws.{
  print_d, entries_of, Stored, WriteLaws, CreatesDb, RemovesFile,
}
use frameworks_security.Permission.Update.Names.{In}
use frameworks_security.Permission.Store.{
  Db, Entry, OpenMode, open_readonly, open_readwrite, open_create, Path-discrete, Unqlite,
  CursorLaws, OpensDb, InitsCursor, has_entry,
}

abbrev file_of : Db → Option (List ℕ) → Option (List Entry)
file_of v none = none
file_of v (some path) = v.files path

abbrev db_of : Option (ℕ × List Entry) → ℕ
db_of none = 0
db_of (some (db, es)) = db

abbrev rest_of : Option (ℕ × List Entry) → List Entry
rest_of none = []
rest_of (some (db, es)) = es

abbrev tail_of : List Entry → List Entry
tail_of [] = []
tail_of (_ ∷ es) = es

abbrev key_of : List Entry → List ℕ
key_of [] = []
key_of (e ∷ _) = e.0

abbrev data_of : List Entry → List ℕ
data_of [] = []
data_of (e ∷ _) = e.1

abbrev with_db : List ℕ → Db → Db
with_db path v = record v { databases = put ℕ_discrete v.databases 0 (some path) }

abbrev opens : OpenMode → List ℕ → Db → Option (List Entry) → Option (List ℕ) → Option ℕ × Db
opens mode path v file (some _) = (none, v)
opens mode path v (some _) none = (some 0, with_db path v)
opens open_create path v none none =
    (some 0, with_db path (record v { files = put Path-discrete v.files path (some []) }))
opens _ path v none none = (none, v)

abbrev inits : ℕ → Db → Option (ℕ × List Entry) → Option ℕ × Db
inits db v none = (some 0, record v { cursors = put ℕ_discrete v.cursors 0 (some (db, [])) })
inits db v (some _) = (none, v)

abbrev move : ℕ → List Entry → Db → Db
move cur es v = record v {
  cursors = put ℕ_discrete v.cursors cur (some (db_of (v.cursors cur), es));
}

-- The entries with another key.
unfoldable pub without : List ℕ → List Entry → List Entry
without key [] = []
without key (e ∷ es) = let rest = without key es in if bytes_eq e.0 key then rest else e ∷ rest

abbrev stores : List ℕ → List ℕ → Option (List ℕ) → Db → Bool × Db
stores key value none v = (false, v)
stores key value (some path) v = (
  true,
  record v {
    files =
        put Path-discrete v.files path
          (some ((key, value) ∷ without key (entries_of (v.files path))));
  },
)

abbrev removes : List ℕ → Option (List Entry) → Db → Bool × Db
removes path none v = (false, v)
removes path (some _) v = (true, record v { files = put Path-discrete v.files path none })

abbrev pub memory : Unqlite
memory = record {
  World = Db;
  view = λ v. v;
  mkdir = λ v. (true, v);
  open_db = λ mode path v. opens mode path v (v.files path) (v.databases 0);
  cursor_init = λ db v. inits db v (v.cursors 0);
  first_entry = λ cur v. move cur (entries_of (file_of v (v.databases (db_of (v.cursors cur))))) v;
  next_entry = λ cur v. move cur (tail_of (rest_of (v.cursors cur))) v;
  valid_entry = λ cur v. has_entry (rest_of (v.cursors cur));
  cursor_key = λ cur room v. take room (key_of (rest_of (v.cursors cur)));
  cursor_data = λ cur v. data_of (rest_of (v.cursors cur));
  cursor_release = λ _ cur v. record v { cursors = put ℕ_discrete v.cursors cur none };
  close_db = λ db v. record v { databases = put ℕ_discrete v.databases db none };
  store_fmt = λ db key state v. stores key (print_d state) (v.databases db) v;
  remove_file = λ path v. removes path (v.files path) v;
  zalloc = λ _. true;
  uninitialised = λ _. pos 0;
}

opens_lem :
    (path : List ℕ) (v : Db)
    → OpensDb memory path v (opens open_readonly path v (v.files path) (v.databases 0))
opens_lem path v = elim (Option-cases (v.files path)) [
  | inl missing ↦ elim (Option-cases (v.databases 0)) [
    | inl free ↦ rw (missing, free) refl
    | inr (p, used) ↦ rw (missing, used) refl
  ]
  | inr (es, file) ↦ elim (Option-cases (v.databases 0)) [
    | inl free ↦ rw (file, free) ((λ e. ground (arith, e)), free, refl)
    | inr (p, used) ↦ rw (file, used) refl
  ]
]

opens_write_lem :
    (path : List ℕ) (v : Db)
    → OpensDb memory path v (opens open_readwrite path v (v.files path) (v.databases 0))
opens_write_lem path v = elim (Option-cases (v.files path)) [
  | inl missing ↦ elim (Option-cases (v.databases 0)) [
    | inl free ↦ rw (missing, free) refl
    | inr (p, used) ↦ rw (missing, used) refl
  ]
  | inr (es, file) ↦ elim (Option-cases (v.databases 0)) [
    | inl free ↦ rw (file, free) ((λ e. ground (arith, e)), free, refl)
    | inr (p, used) ↦ rw (file, used) refl
  ]
]

inits_lem : (db : ℕ) (v : Db) → InitsCursor memory db v (inits db v (v.cursors 0))
inits_lem db v = elim (Option-cases (v.cursors 0)) [
  | inl free ↦ rw free (free, refl)
  | inr (c, used) ↦ rw used refl
]

pub memory_laws : CursorLaws memory
memory_laws = record {
  mkdir_law = λ w. refl;
  open_law = λ path w. opens_lem path w;
  init_law = λ db path w _. inits_lem db w;
  first_law = λ cur db path rest entries w at_cur at_db at_file. rw (at_cur, at_db, at_file) refl;
  valid_law = λ cur db rest w at_cur. rw at_cur refl;
  key_law = λ cur room db e rest w at_cur. rw at_cur refl;
  data_law = λ cur db e rest w at_cur. rw at_cur refl;
  next_law = λ cur db e rest w at_cur. rw at_cur refl;
  release_law = λ cur db rest w _. refl;
  close_law = λ db path w _. refl;
}

differs :
    (k key v : List ℕ) (e : Entry) → ◌≡◌ {A = Entry} (k, v) e → k ≢ key → bytes_eq e.0 key ≡ false
differs k key v e here ne = elim (Bool-cases (bytes_eq e.0 key)) [
  | inl same ↦ absurd (ne (ap (λ (x : Entry). x.0) here ∙ bytes_eq_sound e.0 key same))
  | inr other ↦ other
]

without-key : (key v : List ℕ) (es : List Entry) → ¬ In (key, v) (without key es)
unfolding without
without-key key v [] i = i
without-key key v (e ∷ es) i = elim (Bool-cases (bytes_eq e.0 key)) [
  | inl same ↦ without-key key v es (rw same at i)
  | inr other ↦
      let j : ◌⊎◌ (◌≡◌ {A = Entry} (key, v) e) (In (key, v) (without key es)) = rw other at i in
      elim j [
        | inl here ↦ cc (
            sym other
            ∙ ap (λ x. bytes_eq x key) (sym (ap (λ (x : Entry). x.0) here))
            ∙ bytes_eq_refl key)
        | inr rest ↦ without-key key v es rest
      ]
]

without-kept :
    (key k v : List ℕ) (es : List Entry) → k ≢ key → In (k, v) es → In (k, v) (without key es)
unfolding without
without-kept key k v [] ne i = i
without-kept key k v (e ∷ es) ne (inl here) = rw (differs k key v e here ne) (inl here)
without-kept key k v (e ∷ es) ne (inr rest) = elim (Bool-cases (bytes_eq e.0 key)) [
  | inl same ↦ rw same (without-kept key k v es ne rest)
  | inr other ↦ rw other (inr (without-kept key k v es ne rest))
]

without-In : (key k v : List ℕ) (es : List Entry) → In (k, v) (without key es) → In (k, v) es
unfolding without
without-In key k v [] i = i
without-In key k v (e ∷ es) i = elim (Bool-cases (bytes_eq e.0 key)) [
  | inl same ↦ inr (without-In key k v es (rw same at i))
  | inr other ↦
      let j : ◌⊎◌ (◌≡◌ {A = Entry} (k, v) e) (In (k, v) (without key es)) = rw other at i in
      elim j [ inl here ↦ inl here | inr rest ↦ inr (without-In key k v es rest) ]
]

stores-Stored :
    (key value : List ℕ) (es : List Entry) → Stored key value es ((key, value) ∷ without key es)
stores-Stored key value es = record {
  there = inl refl;
  alone = λ v i. only v i;
  others = λ k v ne i. other k v ne i;
  kept = λ k v ne i. inr (without-kept key k v es ne i);
}
  where
    only : (v : List ℕ) → In (key, v) ((key, value) ∷ without key es) → v ≡ value
    only v (inl here) = ap (λ (x : Entry). x.1) here
    only v (inr rest) = absurd (without-key key v es rest)

    other : (k v : List ℕ) → k ≢ key → In (k, v) ((key, value) ∷ without key es) → In (k, v) es
    other k v ne (inl here) = absurd (ne (ap (λ (x : Entry). x.0) here))
    other k v ne (inr rest) = without-In key k v es rest

creates_lem :
    (path : List ℕ) (v : Db)
    → CreatesDb memory path v (opens open_create path v (v.files path) (v.databases 0))
creates_lem path v = elim (Option-cases (v.files path)) [
  | inl missing ↦ elim (Option-cases (v.databases 0)) [
    | inl free ↦ rw (missing, free) (free, rw missing refl)
    | inr (p, used) ↦ rw (missing, used) refl
  ]
  | inr (es, file) ↦ elim (Option-cases (v.databases 0)) [
    | inl free ↦
        rw (file, free) (free, rw (file, put_same Path-discrete v.files path (some es) file) refl)
    | inr (p, used) ↦ rw (file, used) refl
  ]
]

removes_lem : (path : List ℕ) (v : Db) → RemovesFile memory path v (removes path (v.files path) v)
removes_lem path v = elim (Option-cases (v.files path)) [
  | inl missing ↦ rw missing refl
  | inr (es, file) ↦ rw file refl
]

pub memory_writes : WriteLaws memory
memory_writes = record {
  create_law = λ path w. creates_lem path w;
  write_law = λ path w. opens_write_lem path w;
  store_law = λ db path key state es w at file.
      rw (at, file)
        ((key, print_d state) ∷ without key es, stores-Stored key (print_d state) es, refl);
  remove_law = λ path w. removes_lem path w;
}
