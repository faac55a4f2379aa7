-- ===== src/Permission/Update/Session.antt =====
-- save_permissions of permission/perm_manager.c and what check_permission answers afterwards; and what
-- delete_permissions leaves behind.
use frameworks_security.Base.{
  refl, put, ℕ, suc, ◌≡◌, ◌≢◌, ap, subst, ◌∙◌, ◌≤◌, ◌<◌, ◌⊎◌, Bool, true, false, Bool-cases, inl,
  inr, Option, none, some, List, length, take, put_self, c_string, lt→ltb, if◌then◌else◌,
}
use frameworks_security.Permission.Types.{
  ℤ, pos, PermError, noerror, generic_error, unlink_error, PermissionInfo, check_permission_valid,
  is_noerror,
}
use frameworks_security.Permission.Store.{Unqlite, Entry, CursorLaws, Path-discrete}
use frameworks_security.Permission.Access.{Outcome, check_permission_dir, get_path}
use frameworks_security.Permission.Laws.{package_path}
use frameworks_security.Permission.Check.{check_permission, is_system_uid}
use frameworks_security.Permission.Check.Decision.{
  decision, Answers, Answers-map, FromFile, check_permission_decides,
}
use frameworks_security.Permission.Check.Lookup.{find_entry}
use frameworks_security.Permission.Update.{save_permissions, delete_path, delete_permissions}
use frameworks_security.Permission.Update.Names.{In, valid-In, record_audio}
use frameworks_security.Permission.Update.Laws.{
  print_d, IsInt, atoi-print_d, WriteLaws, RemovesFile, entries_of,
}
use frameworks_security.Permission.Update.Save.{last_state, Knows, AllListed}
use frameworks_security.Permission.Update.Search.{find_entry-Knows}
use frameworks_security.Permission.Update.Effect.{Saved, save_permissions_outcome}

module _ (u : Unqlite) (cursor : CursorLaws u) (laws : WriteLaws u) (path_max : ℕ) where
  open u use {World, view}

  abbrev pub Grants : PermissionInfo → ℤ → PermError → PermissionInfo → Type 0
  Grants info z r info' = (r ≡ noerror) × (info' ≡ record info { state = z })

  -- An entry that `%d` wrote is read back.
  pub state-Grants :
      (info : PermissionInfo) (z : ℤ) (es : List Entry) (r : PermError) (info' : PermissionInfo)
      → IsInt z
      → find_entry info.name es ≡ some (c_string info.name, print_d z)
      → ◌≡◌ {A = PermError × PermissionInfo} (r, info') (decision info (find_entry info.name es))
      → Grants info z r info'
  state-Grants info z es r info' int found e =
      let stored = e ∙ ap (decision info) found in
      (
        ap (λ (a : PermError × PermissionInfo). a.0) stored,
        ap (λ (a : PermError × PermissionInfo). a.1) stored
            ∙ ap (λ (y : ℤ). record info { state = y }) (atoi-print_d z int),
      )

  -- What was saved is what is granted: for a path within PATH_MAX, an array of the stated length and
  -- a package whose file has only listed names as keys, where save_permissions reported no error,
  -- check_permission with the uid of an application and without a callback gives a valid name the
  -- state of the last valid element that had the name, if it can read the database at all. The name
  -- is not RECORD_AUDIO, the state fits 32 bits, memory is there at every allocation, and there is
  -- more fuel than the file has entries. By the laws a stored entry is in the file at once, so that
  -- closing the database loses nothing.
  pub save_then_check :
      (package_name : List ℕ) (n fuel : ℕ) (infos : List PermissionInfo) (info : PermissionInfo)
      (uid z : ℤ) (w w1 : World)
      → length (package_path package_name) < path_max
      → suc n ≤ length infos
      → AllListed (entries_of ((view w).files (package_path package_name)))
      → save_permissions u path_max (some package_name) (some infos) (pos (suc n)) w
        ≡ some (noerror, tt, w1)
      → last_state (c_string info.name) (take (suc n) infos) none ≡ some z
      → IsInt z
      → is_noerror (check_permission_valid info.name) ≡ true
      → is_system_uid uid ≡ false
      → c_string info.name ≢ record_audio
      → ((es : List Entry)
          → (view w1).files (package_path package_name) ≡ some es
          → length es < fuel)
      → ((w' : World) → u.zalloc w' ≡ true)
      → Answers u
          (Grants info z)
          info
          w1
          (check_permission u path_max fuel none (some package_name) (some info) uid w1)
  save_then_check package_name n fuel infos info uid z w w1 short room all saved state int valid app
        other enough memory =
      let path = package_path package_name in
      let (es', file, all', there, alone) = holds path (c_string info.name) z _ w w1 _ saved state (
        save_permissions_outcome u cursor laws path_max package_name (c_string info.name) n infos w
          short room all) in
      Answers-map u (FromFile u path_max info ((view w1).files path)) (Grants info z) info w1 _
        (λ r info' (entries, held, says).
          let one : entries ≡ es' = cc in
          state-Grants info z entries r info' int
            (ap (find_entry info.name) one
              ∙ find_entry-Knows info.name (print_d z) es' (valid-In info.name valid) other all'
                  there alone)
            says)
        (check_permission_decides u path_max cursor fuel package_name info uid w1 valid app short
          enough memory)
    where
      holds :
          (path key : List ℕ) (z' : ℤ) (st : Option ℤ) (v v1 : World) (out : Outcome u Unit)
          → out ≡ some (noerror, tt, v1)
          → st ≡ some z'
          → Saved u cursor laws path_max path key st v out
          → (es' : List Entry) × ((view v1).files path ≡ some es')
            × AllListed es'
            × In (key, print_d z') es'
            × ((v' : List ℕ) → In (key, v') es' → v' ≡ print_d z')
      holds path key z' st v v1 out e f (r, v2, out_eq, inl (kept, bad)) = absurd (bad (cc))
      holds path key z' st v v1 out e f (r, v2, out_eq, inr (es', after, all', knows)) =
          let fine : r ≡ noerror = cc in
          let same : v1 ≡ v2 = cc in
          let known = subst (λ (a : Option ℤ). Knows key a es') f (knows fine) in
          (
            es',
            rw (same, after) (put_self Path-discrete (view v).files path (some es')),
            all',
            known.0,
            known.1,
          )

  -- What delete_permissions leaves behind.
  abbrev pub Deleted : List ℕ → World → Outcome u Unit → Type 0
  Deleted path w out =
      (r : PermError) × (w' : World) × (out ≡ some (r, tt, w'))
      × (((r ≡ noerror)
            × (view w' ≡ record (view w) { files = put Path-discrete (view w).files path none }))
          ⊎ (((r ≡ generic_error) ⊎ (r ≡ unlink_error)) × (view w' ≡ view w)))

  removed :
      (path : List ℕ) (w w0 : World) (res : Bool × World)
      → view w0 ≡ view w
      → RemovesFile u path w0 res
      → Deleted path w (some (if res.0 then noerror else unlink_error, tt, res.1))
  removed path w w0 (false, w') same kept = (unlink_error, w', refl, inr (inr refl, kept ∙ same))
  removed path w w0 (true, w') same gone = (noerror, w', refl, inl (refl, gone ∙ rw same refl))

  -- For a path within PATH_MAX delete_permissions returns: it reports no error, the package's file is
  -- gone and nothing else has changed, or it fails and nothing has changed.
  pub delete_permissions_outcome :
      (package_name : List ℕ) (w : World)
      → length (package_path package_name) < path_max
      → Deleted (package_path package_name) w (delete_permissions u path_max (some package_name) w)
  unfolding delete_permissions delete_path get_path check_permission_dir
  delete_permissions_outcome package_name w short =
      let path = package_path package_name in
      elim (Bool-cases (u.mkdir w).0) [
        | inr failed ↦
            rw failed (generic_error, (u.mkdir w).1, refl, inr (inl refl, cursor.mkdir_law w))
        | inl made ↦
            rw (made, lt→ltb _ _ short)
              (removed path w (u.mkdir w).1 (u.remove_file path (u.mkdir w).1) (cursor.mkdir_law w)
                (laws.remove_law path (u.mkdir w).1))
      ]
