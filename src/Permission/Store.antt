-- ===== src/Permission/Store.antt =====
-- The unqlite database and the file system as permission/perm_manager.c uses them: an interface as
-- a parameter, with the behaviour of a cursor that the sources rely on: that a file which is not there
-- cannot be opened, and that first_entry, whose result they ignore, finds the entries, is assumed.
use frameworks_security.Base.{
  ℕ, ◌≡◌, ◌≢◌, Bool, true, false, Option, none, some, List, [], ◌∷◌, take, put, ℕ_discrete,
}
use frameworks_security.Permission.Types.{ℤ}

-- UNQLITE_OPEN_READONLY, _READWRITE, and _CREATE | _READWRITE.
pub data OpenMode : Type 0 where
  open_readonly open_readwrite open_create : OpenMode

-- Paths and keys are compared as bytes.
unfoldable pub Path-discrete : Discrete (List ℕ)
Path-discrete = hlevel ℕ_discrete

-- A key and its data.
abbrev pub Entry : Type 0
Entry = List ℕ × List ℕ

-- The state behind the interface: the records of each database file, in the order of a cursor, the
-- file of each open database, and the database and remaining records of each cursor.
pub record Db : Type 0 where
  pub files : List ℕ → Option (List Entry)
  pub databases : ℕ → Option (List ℕ)
  pub cursors : ℕ → Option (ℕ × List Entry)

pub record Unqlite : Type 1 where
  pub World : Type 0
  pub view : World → Db
  -- mkdir(PERM_PATH_PREFIX, 0755); `false` if it fails with an error other than EEXIST
  pub mkdir : World → Bool × World
  -- unqlite_open; `none` if it does not return UNQLITE_OK, and likewise below
  pub open_db : OpenMode → List ℕ → World → Option ℕ × World
  -- unqlite_kv_cursor_init
  pub cursor_init : ℕ → World → Option ℕ × World
  -- unqlite_kv_cursor_first_entry, unqlite_kv_cursor_next_entry, unqlite_kv_cursor_valid_entry
  pub first_entry : ℕ → World → World
  pub next_entry : ℕ → World → World
  pub valid_entry : ℕ → World → Bool
  -- unqlite_kv_cursor_key into a buffer of the given size, unqlite_kv_cursor_data_callback
  pub cursor_key : ℕ → ℕ → World → List ℕ
  pub cursor_data : ℕ → World → List ℕ
  -- unqlite_kv_cursor_release, unqlite_close
  pub cursor_release : ℕ → ℕ → World → World
  pub close_db : ℕ → World → World
  -- unqlite_kv_store_fmt with the format "%d"
  pub store_fmt : ℕ → List ℕ → ℤ → World → Bool × World
  -- remove of the C library
  pub remove_file : List ℕ → World → Bool × World
  -- zalloc in data_consumer_callback
  pub zalloc : World → Bool
  -- what an int holds before it is set
  pub uninitialised : World → ℤ

abbrev pub has_entry : List Entry → Bool
has_entry [] = false
has_entry (_ ∷ _) = true

module _ (u : Unqlite) where
  open u use {World, view}

  abbrev pub OpensDb : List ℕ → World → Option ℕ × World → Type 0
  OpensDb path w (none, w') = view w' ≡ view w
  OpensDb path w (some db, w') =
      ((view w).files path ≢ none)
      × ((view w).databases db ≡ none)
      × (view w' ≡ record (view w) { databases = put ℕ_discrete (view w).databases db (some path) })

  abbrev pub InitsCursor : ℕ → World → Option ℕ × World → Type 0
  InitsCursor db w (none, w') = view w' ≡ view w
  InitsCursor db w (some cur, w') =
      ((view w).cursors cur ≡ none)
      × (view w'
          ≡ record (view w) { cursors = put ℕ_discrete (view w).cursors cur (some (db, [])) })

  -- The behaviour of a database that is read through a cursor.
  pub record CursorLaws : Type 0 where
    pub mkdir_law : (w : World) → view (u.mkdir w).1 ≡ view w
    pub open_law : (path : List ℕ) (w : World) → OpensDb path w (u.open_db open_readonly path w)
    pub init_law :
        (db : ℕ) (path : List ℕ) (w : World)
        → (view w).databases db ≡ some path
        → InitsCursor db w (u.cursor_init db w)
    pub first_law :
        (cur db : ℕ) (path : List ℕ) (rest entries : List Entry) (w : World)
        → (view w).cursors cur ≡ some (db, rest)
        → (view w).databases db ≡ some path
        → (view w).files path ≡ some entries
        → view (u.first_entry cur w)
          ≡ record (view w) { cursors = put ℕ_discrete (view w).cursors cur (some (db, entries)) }
    pub valid_law :
        (cur db : ℕ) (rest : List Entry) (w : World)
        → (view w).cursors cur ≡ some (db, rest)
        → u.valid_entry cur w ≡ has_entry rest
    pub key_law :
        (cur room db : ℕ) (e : Entry) (rest : List Entry) (w : World)
        → (view w).cursors cur ≡ some (db, e ∷ rest)
        → u.cursor_key cur room w ≡ take room e.0
    pub data_law :
        (cur db : ℕ) (e : Entry) (rest : List Entry) (w : World)
        → (view w).cursors cur ≡ some (db, e ∷ rest)
        → u.cursor_data cur w ≡ e.1
    pub next_law :
        (cur db : ℕ) (e : Entry) (rest : List Entry) (w : World)
        → (view w).cursors cur ≡ some (db, e ∷ rest)
        → view (u.next_entry cur w)
          ≡ record (view w) { cursors = put ℕ_discrete (view w).cursors cur (some (db, rest)) }
    pub release_law :
        (cur db : ℕ) (rest : List Entry) (w : World)
        → (view w).cursors cur ≡ some (db, rest)
        → view (u.cursor_release db cur w)
          ≡ record (view w) { cursors = put ℕ_discrete (view w).cursors cur none }
    pub close_law :
        (db : ℕ) (path : List ℕ) (w : World)
        → (view w).databases db ≡ some path
        → view (u.close_db db w)
          ≡ record (view w) { databases = put ℕ_discrete (view w).databases db none }
