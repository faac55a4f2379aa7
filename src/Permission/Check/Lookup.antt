-- ===== src/Permission/Check/Lookup.antt =====
-- check_permission of permission/perm_manager.c against a search of the entries in the file.
use frameworks_security.Base.{
  some, ℕ, zero, suc, ◌<◌, ◌≡◌, refl, inl, inr, ◌∙◌, Option, none, some, List, [], ◌∷◌, take,
  length, put_self, put-put, put_same, ℕ_discrete, arith, Bool-cases, if◌then◌else◌,
}
use frameworks_security.Permission.Types.{
  PermError, noerror, invalid_permname, PermissionInfo, perm_name_len,
}
use frameworks_security.Permission.Store.{Unqlite, Entry, CursorLaws}
use frameworks_security.Permission.Access.{memcmp_eq, data_consumer_callback}
use frameworks_security.Permission.Laws.{package_path, Walked, Reads, with_package-Reads}
use frameworks_security.Permission.Check.{check_entries, after_entries, check_database}

-- The first entry whose key is a prefix of the name.
unfoldable pub find_entry : List ℕ → List Entry → Option Entry
find_entry name [] = none
find_entry name (e ∷ es) =
    let rest = find_entry name es in
    if memcmp_eq (take perm_name_len e.0) name then some e else rest

module _ (u : Unqlite) where
  open u use {World, view, uninitialised}

  -- What check_permission answers for the entry found: the state that is stored there, or what the
  -- variable held before where zalloc fails.
  unfoldable pub answer : PermissionInfo → Option Entry → World → PermError × PermissionInfo
  unfolding data_consumer_callback
  answer info none w = (invalid_permname, info)
  answer info (some e) w =
      (noerror, record info { state = data_consumer_callback u e.1 (uninitialised w) w })

module _ (u : Unqlite) (laws : CursorLaws u) (info : PermissionInfo) where
  open u use {World, view}

  abbrev Answers : List Entry → PermError → PermissionInfo → World → Type 0
  Answers entries r info' w =
      ◌≡◌ {A = PermError × PermissionInfo} (r, info')
        (answer u info (find_entry info.name entries) w)

  check_entries-Answers :
      (fuel db cur : ℕ) (rest : List Entry) (w : World)
      → (view w).cursors cur ≡ some (db, rest)
      → length rest < fuel
      → Walked u (Answers rest) db cur w (after_entries u cur (check_entries u fuel info cur w))
  unfolding check_entries after_entries find_entry answer
  check_entries-Answers zero db cur rest w here enough = absurd (ground arith)
  check_entries-Answers (suc fuel) db cur [] w here enough =
      rw (laws.valid_law cur db [] w here, laws.valid_law cur db [] w here)
        (
          invalid_permname,
          info,
          w,
          [],
          refl,
          refl,
          rw (put_same ℕ_discrete (view w).cursors cur _ here) refl,
        )
  check_entries-Answers (suc fuel) db cur (e ∷ es) w here enough =
      rw
        (
          laws.valid_law cur db (e ∷ es) w here,
          laws.key_law cur perm_name_len db e es w here,
          laws.data_law cur db e es w here,
        )
        (elim (Bool-cases (memcmp_eq (take perm_name_len e.0) info.name)) [
          | inl hit ↦
              rw (hit, laws.valid_law cur db (e ∷ es) w here)
                (
                  noerror,
                  record info { state = data_consumer_callback u e.1 (u.uninitialised w) w },
                  w,
                  e ∷ es,
                  refl,
                  refl,
                  rw (put_same ℕ_discrete (view w).cursors cur _ here) refl,
                )
          | inr miss ↦
              let moved : (view (u.next_entry cur w)).cursors cur ≡ some (db, es) =
                rw (laws.next_law cur db e es w here) (put_self ℕ_discrete _ cur _) in
              let (r, info', w', rest, out, good, at_rest) =
                check_entries-Answers fuel db cur es (u.next_entry cur w) moved (ground arith) in
              rw miss (
                r,
                info',
                w',
                rest,
                out,
                good,
                at_rest ∙ rw (laws.next_law cur db e es w here, put-put) refl,
              )
        ])

module _ (u : Unqlite) (laws : CursorLaws u) (path_max : ℕ) (info : PermissionInfo) where
  open u use {World, view}

  abbrev pub Says : Option Entry → PermError → PermissionInfo → World → Type 0
  Says e r info' w' = ◌≡◌ {A = PermError × PermissionInfo} (r, info') (answer u info e w')

  abbrev pub SaysOf : Option (List Entry) → PermError → PermissionInfo → World → Type 0
  SaysOf file r info' w' =
      (entries : List Entry) × (file ≡ some entries)
      × Says (find_entry info.name entries) r info' w'

  -- For a path within PATH_MAX and more fuel than the file has entries, the part of
  -- check_permission that reads the package's file returns, and nothing stored changes. Either the
  -- database could not be read, or the result is that of the first entry of the file whose key is a
  -- prefix of the name, and the state is what data_consumer_callback makes of that entry in some
  -- state of memory, with an error if there is no entry.
  pub check_database_decides :
      (fuel : ℕ) (package_name : List ℕ) (w : World)
      → length (package_path package_name) < path_max
      → ((entries : List Entry)
          → (view w).files (package_path package_name) ≡ some entries
          → length entries < fuel)
      → Reads u
          (SaysOf ((view w).files (package_path package_name)))
          info
          w
          (check_database u path_max fuel package_name info w)
  unfolding check_database
  check_database_decides fuel package_name w short enough =
      with_package-Reads u laws path_max (SaysOf ((view w).files (package_path package_name))) info
        package_name _ w short
        (λ db cur entries w1 file here.
          let (r, info', w', rest, out, good, at_rest) =
            check_entries-Answers u laws info fuel db cur entries w1 here (enough entries file) in
          (r, info', w', rest, out, (entries, file, good), at_rest))
