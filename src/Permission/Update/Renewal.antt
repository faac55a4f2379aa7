-- ===== src/Permission/Update/Renewal.antt =====
-- update_permission of permission/perm_manager.c, and what check_permission answers afterwards.
use frameworks_security.Base.{
  none, false, ℕ, ◌≡◌, ◌≢◌, sym, ap, ◌∙◌, ◌<◌, inl, inr, some, true, List, length, put_self,
  c_string,
}
use frameworks_security.Permission.Types.{
  ℤ, noerror, PermissionInfo, g_permission_name, check_permission_valid, is_noerror,
}
use frameworks_security.Permission.Store.{Unqlite, Entry, CursorLaws, Path-discrete}
use frameworks_security.Permission.Access.{Outcome}
use frameworks_security.Permission.Laws.{package_path}
use frameworks_security.Permission.Check.{check_permission, is_system_uid}
use frameworks_security.Permission.Check.Decision.{
  Answers, Answers-map, FromFile, check_permission_decides,
}
use frameworks_security.Permission.Check.Lookup.{find_entry}
use frameworks_security.Permission.Update.{update_permission}
use frameworks_security.Permission.Update.Names.{In, valid-In, record_audio}
use frameworks_security.Permission.Update.Laws.{print_d, IsInt, Stored, WriteLaws}
use frameworks_security.Permission.Update.Save.{AllListed, AllListed-store}
use frameworks_security.Permission.Update.Search.{find_entry-Knows, find_entry-some}
use frameworks_security.Permission.Update.Session.{Grants, state-Grants}
use frameworks_security.Permission.Update.Closing.{Updated, update_permission_outcome}

module _ (u : Unqlite) (cursor : CursorLaws u) (laws : WriteLaws u) (path_max : ℕ) where
  open u use {World, view}

  -- The file after an update without an error, where the name was a key.
  renews :
      (path v : List ℕ) (info : PermissionInfo) (es : List Entry) (w w1 : World)
      (out : Outcome u Unit)
      → out ≡ some (noerror, tt, w1)
      → (view w).files path ≡ some es
      → AllListed es
      → In (c_string info.name, v) es
      → In (c_string info.name) g_permission_name
      → Updated u cursor laws path info w out
      → (es' : List Entry) × ((view w1).files path ≡ some es')
        × AllListed es'
        × Stored (c_string info.name) (print_d info.state) es es'
  renews path v info es w w1 out e file all key valid (r, w2, out_eq, inl (kept, bad)) =
      absurd (bad (cc))
  renews path v info es w w1 out e file all key valid
        (r, w2, out_eq, inr (es0, es', file0, after, inl (same, missing))) =
      let fine : r ≡ noerror = cc in
      let one : es0 ≡ es = cc in
      absurd (
        find_entry-some info.name v es valid key
          (ap (find_entry info.name) (sym one) ∙ missing fine))
  renews path v info es w w1 out e file all key valid
        (r, w2, out_eq, inr (es0, es', file0, after, inr (fine, found, st))) =
      let same : w1 ≡ w2 = cc in
      let one : es0 ≡ es = cc in
      let stored : Stored (c_string info.name) (print_d info.state) es es' = rw one at st in
      (
        es',
        rw (same, after) (put_self Path-discrete (view w).files path (some es')),
        AllListed-store (c_string info.name) (print_d info.state) es es' stored valid all,
        stored,
      )

  -- What was updated is what is granted: for a path within PATH_MAX and a package whose file has only
  -- listed names as keys, where update_permission reported no error for a valid name that is one of
  -- them, check_permission with the uid of an application and without a callback gives the name the
  -- new state, if it can read the database at all. The name is not RECORD_AUDIO, the state fits 32
  -- bits, memory is there at every allocation, and there is more fuel than the file has entries,
  -- before and after. By the laws a stored entry is in the file at once, so that closing the database
  -- loses nothing.
  pub update_then_check :
      (package_name v : List ℕ) (fuel : ℕ) (info asked : PermissionInfo) (es : List Entry) (uid : ℤ)
      (w w1 : World)
      → length (package_path package_name) < path_max
      → (view w).files (package_path package_name) ≡ some es
      → AllListed es
      → In (c_string info.name, v) es
      → length es < fuel
      → is_noerror (check_permission_valid info.name) ≡ true
      → is_system_uid uid ≡ false
      → c_string info.name ≢ record_audio
      → IsInt info.state
      → asked.name ≡ info.name
      → update_permission u path_max fuel (some package_name) (some info) w ≡ some (noerror, tt, w1)
      → ((es' : List Entry)
          → (view w1).files (package_path package_name) ≡ some es'
          → length es' < fuel)
      → ((w' : World) → u.zalloc w' ≡ true)
      → Answers u
          (Grants u cursor laws path_max asked info.state)
          asked
          w1
          (check_permission u path_max fuel none (some package_name) (some asked) uid w1)
  update_then_check package_name v fuel info asked es uid w w1 short file all key enough valid app
        other int named done enough' memory =
      let path = package_path package_name in
      let listed = valid-In info.name valid in
      let (es', file', all', st) = renews path v info es w w1 _ done file all key listed (
        update_permission_outcome u cursor laws path_max fuel package_name info w valid short
          (λ es0 e. let same : es0 ≡ es = cc in rw same enough)) in
      Answers-map u (FromFile u path_max asked ((view w1).files path))
        (Grants u cursor laws path_max asked info.state) asked w1 _
        (λ r info' (entries, held, says).
          let one : entries ≡ es' = cc in
          state-Grants u cursor laws path_max asked info.state entries r info' int
            (ap (find_entry asked.name) one
              ∙ ap (λ n. find_entry n es') named
              ∙ find_entry-Knows info.name (print_d info.state) es' listed other all' st.there
                  st.alone
              ∙ ap (λ (n : List ℕ). some (c_string n, print_d info.state)) (sym named))
            says)
        (check_permission_decides u path_max cursor fuel package_name asked uid w1
          (ap (λ n. is_noerror (check_permission_valid n)) named ∙ valid) app short enough' memory)
