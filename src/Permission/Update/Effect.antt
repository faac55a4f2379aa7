-- ===== src/Permission/Update/Effect.antt =====
-- What save_permissions of permission/perm_manager.c leaves behind.
use frameworks_security.Base.{
  ℕ, suc, ◌≡◌, ◌≢◌, refl, ◌∙◌, ◌≤◌, ◌<◌, ◌⊎◌, Bool-cases, inl, inr, Option, none, some, List,
  length, take, put, put_self, put-put, put_same, ℕ_discrete, lt→ltb,
}
use frameworks_security.Permission.Types.{
  ℤ, pos, PermError, noerror, generic_error, open_database_fail, PermissionInfo,
}
use frameworks_security.Permission.Store.{Unqlite, Entry, CursorLaws, Path-discrete, open_create}
use frameworks_security.Permission.Access.{
  Outcome, check_permission_dir, get_path, open_path, opened_db, open_package,
}
use frameworks_security.Permission.Laws.{package_path}
use frameworks_security.Permission.Update.{save_entries, save_opened, close_after, save_permissions}
use frameworks_security.Permission.Update.Laws.{WriteLaws, CreatesDb, entries_of}
use frameworks_security.Permission.Update.Save.{last_state, Knows, AllListed, save_entries-Leaves}

module _ (u : Unqlite) (cursor : CursorLaws u) (laws : WriteLaws u) (path_max : ℕ) where
  open u use {World, view}

  -- What save_permissions leaves behind: an error and nothing changed, or the file of the package
  -- with other entries, whose keys are listed names, and with the last state of the key where no
  -- error is reported.
  abbrev pub Saved : List ℕ → List ℕ → Option ℤ → World → Outcome u Unit → Type 0
  Saved path key state w out =
      (r : PermError) × (w' : World) × (out ≡ some (r, tt, w'))
      × (((view w' ≡ view w) × (r ≢ noerror))
          ⊎ ((es' : List Entry) × (view w'
                ≡ record (view w) { files = put Path-discrete (view w).files path (some es') })
              × AllListed es'
              × (r ≡ noerror → Knows key state es')))

  save_opened-Saved :
      (n : ℕ) (info : List PermissionInfo) (path key : List ℕ) (w w0 : World)
      → n ≤ length info
      → AllListed (entries_of ((view w).files path))
      → view w0 ≡ view w
      → (res : Option ℕ × World) → CreatesDb u path w0 res
      → Saved path key
          (last_state key (take n info) none)
          w
          (save_opened u (λ db. save_entries u db n info) (opened_db u res))
  unfolding save_opened close_after opened_db
  save_opened-Saved n info path key w w0 room all same (none, w1) kept =
      (open_database_fail, w1, refl, inl (kept ∙ same, λ e. cc))
  save_opened-Saved n info path key w w0 room all same (some db, w1) (fresh, made) =
      let es = entries_of ((view w).files path) in
      let made' : view w1 ≡ record (view w) {
        files = put Path-discrete (view w).files path (some es);
        databases = put ℕ_discrete (view w).databases db (some path);
      } =
        made ∙ rw same refl in
      let (r, w2, es', out, after, all', knows) =
        save_entries-Leaves u laws db path key n info none es w1 room
          (rw made' (put_self ℕ_discrete (view w).databases db (some path)))
          (rw made' (put_self Path-discrete (view w).files path (some es))) tt all in
      let held : (view w2).databases db ≡ some path =
        rw (after, made') (put_self ℕ_discrete (view w).databases db (some path)) in
      (
        r,
        u.close_db db w2,
        rw out refl,
        inr (
          es',
          cursor.close_law db path w2 held
              ∙ rw
                  (
                    after,
                    made',
                    put-put,
                    put-put,
                    put_same ℕ_discrete (view w).databases db none (rw same at fresh),
                  )
                  refl,
          all',
          knows,
        ),
      )

  -- For a path within PATH_MAX and an array of the stated length, on a package whose file has only
  -- listed names as keys: save_permissions returns. It fails and nothing has changed; or the file of
  -- the package is the only thing that has, its keys are still listed names, and where no error is
  -- reported it holds, for each name, the state of the last valid element with that name.
  pub save_permissions_outcome :
      (package_name key : List ℕ) (n : ℕ) (info : List PermissionInfo) (w : World)
      → length (package_path package_name) < path_max
      → suc n ≤ length info
      → AllListed (entries_of ((view w).files (package_path package_name)))
      → Saved
          (package_path package_name)
          key
          (last_state key (take (suc n) info) none)
          w
          (save_permissions u path_max (some package_name) (some info) (pos (suc n)) w)
  unfolding save_permissions save_opened open_package get_path check_permission_dir open_path
  save_permissions_outcome package_name key n info w short room all =
      let path = package_path package_name in
      elim (Bool-cases (u.mkdir w).0) [
        | inr failed ↦
            rw failed (generic_error, (u.mkdir w).1, refl, inl (cursor.mkdir_law w, λ e. cc))
        | inl made ↦
            rw (made, lt→ltb _ _ short)
              (save_opened-Saved (suc n) info path key w (u.mkdir w).1 room all (cursor.mkdir_law w)
                (u.open_db open_create path (u.mkdir w).1) (laws.create_law path (u.mkdir w).1))
      ]
