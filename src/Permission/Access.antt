-- ===== src/Permission/Access.antt =====
-- The permission database of permission/perm_manager.c. A null pointer is `none` among the
-- arguments. The result is `none` where the source has no defined behaviour: a path longer than
-- PATH_MAX, or a null pointer that is read. The loops over a cursor take fuel, one round each, and
-- are `none` where it runs out.
use frameworks_security.Base.{
  ℕ, Bool, Option, none, some, List, [], ◌++◌, take, length, ltb, bytes_eq, if◌then◌else◌,
}
use frameworks_security.Permission.Types.{
  ℤ, PermError, noerror, generic_error, open_database_fail, codes, c_string, atoi, is_noerror,
}
use frameworks_security.Permission.Store.{Unqlite, OpenMode}

abbrev pub perm_path_prefix : List ℕ
perm_path_prefix = codes "/data/permission/"

-- memcmp(key, name, keylen) == 0, for the `keylen` bytes of the key.
abbrev pub memcmp_eq : List ℕ → List ℕ → Bool
memcmp_eq key name = bytes_eq key (take (length key) name)

module _ (u : Unqlite) where
  open u use {World, mkdir, open_db, cursor_init, first_entry, cursor_release, close_db, zalloc}

  abbrev pub Outcome : Type 0 → Type 0
  Outcome A = Option (PermError × A × World)

  -- check_permission_dir
  unfoldable pub check_permission_dir : World → PermError × World
  check_permission_dir w = let (done, w') = mkdir w in (if done then noerror else generic_error, w')

  -- data_consumer_callback: the int behind `pUserData` afterwards.
  unfoldable pub data_consumer_callback : List ℕ → ℤ → World → ℤ
  data_consumer_callback bytes state w = if zalloc w then atoi bytes else state

  unfoldable pub opened_db : Option ℕ × World → Outcome ℕ
  opened_db (none, w) = some (open_database_fail, 0, w)
  opened_db (some db, w) = some (noerror, db, w)

  -- What the functions do up to unqlite_open: the database, or an error.
  unfoldable pub open_path : OpenMode → Outcome (List ℕ) → Outcome ℕ
  unfolding opened_db
  open_path mode none = none
  open_path mode (some (res, path, w)) =
      if is_noerror res then opened_db (open_db mode path w) else some (generic_error, 0, w)

  module _ {A : Type 0} where
    -- unqlite_kv_cursor_release and unqlite_close
    unfoldable pub close_all : ℕ → ℕ → Outcome A → Outcome A
    close_all db cur none = none
    close_all db cur (some (res, a, w)) = some (res, a, close_db db (cursor_release db cur w))

    unfoldable pub with_cursor : ℕ → A → (ℕ → World → Outcome A) → Option ℕ × World → Outcome A
    unfolding close_all
    with_cursor db a body (none, w) = some (generic_error, a, close_db db w)
    with_cursor db a body (some cur, w) = close_all db cur (body cur (first_entry cur w))

    unfoldable pub with_opened : A → (ℕ → ℕ → World → Outcome A) → Outcome ℕ → Outcome A
    unfolding with_cursor
    with_opened a body none = none
    with_opened a body (some (res, db, w)) =
        if is_noerror res then with_cursor db a (body db) (cursor_init db w) else some (res, a, w)

module _ (u : Unqlite) (path_max : ℕ) where
  open u use {World}

  -- get_path
  unfoldable pub get_path : List ℕ → World → Outcome u (List ℕ)
  unfolding check_permission_dir
  get_path package_name w =
      let (res, w') = check_permission_dir u w in
      let path = perm_path_prefix ++ c_string package_name in
      if is_noerror res
      then (if ltb (length path) path_max then some (noerror, path, w') else none)
      else some (generic_error, [], w')

  unfoldable pub open_package : OpenMode → List ℕ → World → Outcome u ℕ
  unfolding get_path open_path
  open_package mode package_name w = open_path u mode (get_path package_name w)

  module _ {A : Type 0} where
    -- get_path, unqlite_open, unqlite_kv_cursor_init, unqlite_kv_cursor_first_entry, the body on
    -- the database and the cursor, unqlite_kv_cursor_release, unqlite_close. `a` is what the
    -- caller's memory holds where the body does not run.
    unfoldable pub with_package :
        OpenMode → List ℕ → A → (ℕ → ℕ → World → Outcome u A) → World → Outcome u A
    unfolding open_package with_opened
    with_package mode package_name a body w =
        with_opened u a body (open_package mode package_name w)
