-- ===== src/Permission/Check/Decision.antt =====
-- What check_permission of permission/perm_manager.c answers for the uid of an application, where no
-- callback is registered and memory is there.
use frameworks_security.Base.{
  ℕ, ◌≡◌, refl, ◌∙◌, ◌<◌, ◌⊎◌, false, true, inl, inr, Option, none, some, List, length,
}
use frameworks_security.Permission.Types.{
  ℤ, atoi, PermError, noerror, generic_error, open_database_fail, invalid_permname, PermissionInfo,
  check_permission_valid, is_noerror,
}
use frameworks_security.Permission.Store.{Unqlite, Entry, CursorLaws}
use frameworks_security.Permission.Access.{Outcome, data_consumer_callback}
use frameworks_security.Permission.Laws.{package_path, Reads}
use frameworks_security.Permission.Check.{
  is_system_uid, check_database, check_uid, check_info, check_permission, some_info, notify,
}
use frameworks_security.Permission.Check.Lookup.{find_entry, answer, SaysOf, check_database_decides}

-- The result and the state for the entry that was found.
abbrev pub decision : PermissionInfo → Option Entry → PermError × PermissionInfo
decision info none = (invalid_permname, info)
decision info (some e) = (noerror, record info { state = atoi e.1 })

module _ (u : Unqlite) where
  open u use {World, view}

  -- check_permission returns and nothing stored changes. It could not read the database and leaves
  -- the caller's structure alone, or its result and that structure are good.
  abbrev pub Answers :
      (PermError → PermissionInfo → Type 0)
      → PermissionInfo
      → World
      → Outcome u (Option PermissionInfo)
      → Type 0
  Answers Good info w out =
      (r : PermError) × (info' : PermissionInfo) × (w' : World) × (out ≡ some (r, some info', w'))
      × (view w' ≡ view w)
      × ((((r ≡ generic_error) ⊎ (r ≡ open_database_fail)) × (info' ≡ info)) ⊎ Good r info')

  pub Answers-map :
      (Good Better : PermError → PermissionInfo → Type 0) (info : PermissionInfo) (w : World)
      (out : Outcome u (Option PermissionInfo))
      → ((r : PermError) (info' : PermissionInfo) → Good r info' → Better r info')
      → Answers Good info w out
      → Answers Better info w out
  Answers-map Good Better info w out f (r, info', w', e, same, inl bad) =
      (r, info', w', e, same, inl bad)
  Answers-map Good Better info w out f (r, info', w', e, same, inr good) =
      (r, info', w', e, same, inr (f r info' good))

  answer-decision :
      (info : PermissionInfo) (e : Option Entry) (w : World)
      → ((w' : World) → u.zalloc w' ≡ true)
      → answer u info e w ≡ decision info e
  unfolding answer data_consumer_callback
  answer-decision info none w memory = refl
  answer-decision info (some e) w memory = rw (memory w) refl

  module _ (path_max : ℕ) where
    check_permission-database :
        (fuel : ℕ) (package_name : List ℕ) (info : PermissionInfo) (uid : ℤ) (w : World)
        → is_noerror (check_permission_valid info.name) ≡ true
        → is_system_uid uid ≡ false
        → check_permission u path_max fuel none (some package_name) (some info) uid w
          ≡ some_info u (check_database u path_max fuel package_name info w)
    unfolding check_permission check_info check_uid notify
    check_permission-database fuel package_name info uid w valid app = rw (valid, app) refl

    -- The file's entries decide.
    abbrev pub FromFile : PermissionInfo → Option (List Entry) → PermError → PermissionInfo → Type 0
    FromFile info file r info' =
        (entries : List Entry) × (file ≡ some entries)
        × ◌≡◌ {A = PermError × PermissionInfo} (r, info')
            (decision info (find_entry info.name entries))

    module _ (laws : CursorLaws u) where
      decided :
          (info : PermissionInfo) (file : Option (List Entry)) (w : World)
          (out : Outcome u PermissionInfo)
          → ((w' : World) → u.zalloc w' ≡ true)
          → Reads u (SaysOf u laws path_max info file) info w out
          → Answers (FromFile info file) info w (some_info u out)
      unfolding some_info
      decided info file w out memory (r, info', w', e, same, inl bad) =
          (r, info', w', rw e refl, same, inl bad)
      decided info file w out memory (r, info', w', e, same, inr (w2, (entries, held, says))) = (
        r,
        info',
        w',
        rw e refl,
        same,
        inr (entries, held, says ∙ answer-decision info (find_entry info.name entries) w2 memory),
      )

      -- For the uid of an application, a valid name, no callback, a path within PATH_MAX, memory at
      -- every allocation and more fuel than the file has entries: check_permission returns and
      -- nothing stored changes. Either the database could not be read, or the first entry of the
      -- package's file whose key is a prefix of the name decides: the state is the number stored
      -- there, and there is an error if there is no such entry.
      pub check_permission_decides :
          (fuel : ℕ) (package_name : List ℕ) (info : PermissionInfo) (uid : ℤ) (w : World)
          → is_noerror (check_permission_valid info.name) ≡ true
          → is_system_uid uid ≡ false
          → length (package_path package_name) < path_max
          → ((entries : List Entry)
              → (view w).files (package_path package_name) ≡ some entries
              → length entries < fuel)
          → ((w' : World) → u.zalloc w' ≡ true)
          → Answers
              (FromFile info ((view w).files (package_path package_name)))
              info
              w
              (check_permission u path_max fuel none (some package_name) (some info) uid w)
      check_permission_decides fuel package_name info uid w valid app short enough memory =
          rw (check_permission-database fuel package_name info uid w valid app) (
            decided info ((view w).files (package_path package_name)) w
              (check_database u path_max fuel package_name info w) memory
              (check_database_decides u laws path_max info fuel package_name w short enough))
