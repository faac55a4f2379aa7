-- ===== src/Permission/Update/Closing.antt =====
-- update_permission of permission/perm_manager.c: what it leaves behind, by the documented behaviour of
-- the calls around its loop.
use frameworks_security.Base.{
  ℕ, ◌≡◌, ◌≢◌, refl, ◌∙◌, ◌<◌, ◌⊎◌, true, Bool-cases, Option-cases, inl, inr, Option, none, some,
  List, [], length, put, put_self, put-put, put_same, ℕ_discrete, lt→ltb,
}
use frameworks_security.Permission.Types.{
  PermError, noerror, generic_error, open_database_fail, PermissionInfo, check_permission_valid,
  is_noerror,
}
use frameworks_security.Permission.Store.{
  Unqlite, Entry, CursorLaws, Path-discrete, InitsCursor, OpensDb, open_readwrite,
}
use frameworks_security.Permission.Access.{
  Outcome, check_permission_dir, get_path, opened_db, open_path, open_package, close_all,
  with_cursor, with_opened, with_package,
}
use frameworks_security.Permission.Laws.{package_path}
use frameworks_security.Permission.Update.{update_entries, update_permission}
use frameworks_security.Permission.Update.Laws.{WriteLaws}
use frameworks_security.Permission.Update.One.{Changes, Walked, update_entries-Walked}

module _ (u : Unqlite) (cursor : CursorLaws u) (laws : WriteLaws u) (path : List ℕ)
    (info : PermissionInfo) where
  open u use {World, view}

  -- What the function leaves behind: nothing has changed and there is an error, or the file is the
  -- only thing that may have.
  abbrev pub Updated : World → Outcome u Unit → Type 0
  Updated w out =
      (r : PermError) × (w' : World) × (out ≡ some (r, tt, w'))
      × (((view w' ≡ view w) × (r ≢ noerror))
          ⊎ ((es : List Entry) × (es' : List Entry) × ((view w).files path ≡ some es)
              × (view w'
                  ≡ record (view w) { files = put Path-discrete (view w).files path (some es') })
              × Changes info es es r es'))

  -- The database is open, with the file as it was or other entries in it.
  abbrev Open : ℕ → List Entry → World → World → Type 0
  Open db es w w' = view w' ≡ record (view w) {
    files = put Path-discrete (view w).files path (some es);
    databases = put ℕ_discrete (view w).databases db (some path);
  }

  closes :
      (db : ℕ) (es : List Entry) (w w1 : World)
      → (view w).databases db ≡ none
      → Open db es w w1
      → view (u.close_db db w1)
        ≡ record (view w) { files = put Path-discrete (view w).files path (some es) }
  closes db es w w1 fresh e =
      cursor.close_law db path w1 (rw e (put_self ℕ_discrete _ db _))
      ∙ rw (e, put-put, put_same ℕ_discrete (view w).databases db none fresh) refl

  releases :
      (db cur : ℕ) (es left : List Entry) (w w1 : World)
      → (view w).databases db ≡ none
      → (view w).cursors cur ≡ none
      → view w1 ≡ record (view w) {
        files = put Path-discrete (view w).files path (some es);
        databases = put ℕ_discrete (view w).databases db (some path);
        cursors = put ℕ_discrete (view w).cursors cur (some (db, left));
      }
      → view (u.close_db db (u.cursor_release db cur w1))
        ≡ record (view w) { files = put Path-discrete (view w).files path (some es) }
  releases db cur es left w w1 fresh free e = closes db es w (u.cursor_release db cur w1) fresh (
      cursor.release_law cur db left w1 (rw e (put_self ℕ_discrete _ cur _))
      ∙ rw (e, put-put, put_same ℕ_discrete (view w).cursors cur none free) refl)

  -- The end of the function, behind its walk.
  closed :
      (db cur : ℕ) (es : List Entry) (w w3 : World) (body : Outcome u Unit)
      → (view w).files path ≡ some es
      → (view w).databases db ≡ none
      → (view w).cursors cur ≡ none
      → view w3 ≡ record (view w) {
        files = put Path-discrete (view w).files path (some es);
        databases = put ℕ_discrete (view w).databases db (some path);
        cursors = put ℕ_discrete (view w).cursors cur (some (db, es));
      }
      → Walked u cursor laws path info db cur es es w3 body
      → Updated w (close_all u db cur body)
  unfolding close_all
  closed db cur es w w3 body file fresh free e3 (r, w4, left, es', out, e4, changes) = (
    r,
    u.close_db db (u.cursor_release db cur w4),
    rw out refl,
    inr (
      es,
      es',
      file,
      releases db cur es' left w w4 fresh free (e4 ∙ rw (e3, put-put, put-put) refl),
      changes,
    ),
  )

  with_cursor-Updated :
      (fuel db : ℕ) (es : List Entry) (w w1 : World)
      → length es < fuel
      → (view w).files path ≡ some es
      → (view w).databases db ≡ none
      → Open db es w w1
      → (res : Option ℕ × World) → InitsCursor u db w1 res
      → Updated w (with_cursor u db tt (update_entries u fuel info db) res)
  unfolding with_cursor close_all
  with_cursor-Updated fuel db es w w1 enough file fresh e (none, w2) same = (
    generic_error,
    u.close_db db w2,
    refl,
    inl (
      closes db es w w2 fresh (same ∙ e)
          ∙ rw (put_same Path-discrete (view w).files path (some es) file) refl,
      λ bad. cc,
    ),
  )
  with_cursor-Updated fuel db es w w1 enough file fresh e (some cur, w2) (free, e2) =
      closed db cur es w w3 (update_entries u fuel info db cur w3) file fresh (rw e at free) e3 (
        update_entries-Walked u cursor laws path info fuel db cur es es w3
          (rw e3 (put_self ℕ_discrete _ db _)) (rw e3 (put_self Path-discrete _ path _))
          (rw e3 (put_self ℕ_discrete _ cur _)) enough)
    where
      w3 : World
      w3 = u.first_entry cur w2

      e3 : view w3 ≡ record (view w) {
        files = put Path-discrete (view w).files path (some es);
        databases = put ℕ_discrete (view w).databases db (some path);
        cursors = put ℕ_discrete (view w).cursors cur (some (db, es));
      }
      e3 =
          cursor.first_law cur db path [] es w2 (rw e2 (put_self ℕ_discrete _ cur _))
            (rw (e2, e) (put_self ℕ_discrete _ db _)) (rw (e2, e) (put_self Path-discrete _ path _))
          ∙ rw (e2, e, put-put) refl

  with_opened-Updated :
      (fuel : ℕ) (w w0 : World)
      → ((es : List Entry) → (view w).files path ≡ some es → length es < fuel)
      → view w0 ≡ view w
      → (res : Option ℕ × World) → OpensDb u path w0 res
      → Updated w (with_opened u tt (update_entries u fuel info) (opened_db u res))
  unfolding with_opened opened_db
  with_opened-Updated fuel w w0 enough same (none, w1) kept =
      (open_database_fail, w1, refl, inl (kept ∙ same, λ bad. cc))
  with_opened-Updated fuel w w0 enough same (some db, w1) (there, fresh, e) =
      elim (Option-cases ((view w).files path)) [
        | inl missing ↦ absurd (rw same at there missing)
        | inr (es, file) ↦
            let opened : Open db es w w1 =
              rw (put_same Path-discrete (view w).files path (some es) file) (rw same at e) in
            with_cursor-Updated fuel db es w w1 (enough es file) file (rw same at fresh) opened
              (u.cursor_init db w1) (cursor.init_law db path w1 (rw e (put_self ℕ_discrete _ db _)))
      ]

module _ (u : Unqlite) (cursor : CursorLaws u) (laws : WriteLaws u) (path_max : ℕ) where
  open u use {World, view}

  -- For a valid name, a path within PATH_MAX and more fuel than the package's file has entries,
  -- update_permission returns. It fails and nothing has changed; or no key in the file matches the
  -- name, nothing has changed either, and no error is reported; or the first match is a key of the
  -- file, and the state is stored under the name itself, with the other entries as they were.
  pub update_permission_outcome :
      (fuel : ℕ) (package_name : List ℕ) (info : PermissionInfo) (w : World)
      → is_noerror (check_permission_valid info.name) ≡ true
      → length (package_path package_name) < path_max
      → ((es : List Entry)
          → (view w).files (package_path package_name) ≡ some es
          → length es < fuel)
      → Updated u cursor laws
          (package_path package_name)
          info
          w
          (update_permission u path_max fuel (some package_name) (some info) w)
  unfolding update_permission with_package open_package get_path check_permission_dir open_path
      with_opened
  update_permission_outcome fuel package_name info w valid short enough =
      let path = package_path package_name in
      rw valid (elim (Bool-cases (u.mkdir w).0) [
        | inr failed ↦
            rw failed (generic_error, (u.mkdir w).1, refl, inl (cursor.mkdir_law w, λ bad. cc))
        | inl made ↦
            rw (made, lt→ltb _ _ short)
              (with_opened-Updated u cursor laws path info fuel w (u.mkdir w).1 enough
                (cursor.mkdir_law w) (u.open_db open_readwrite path (u.mkdir w).1)
                (laws.write_law path (u.mkdir w).1))
      ])
