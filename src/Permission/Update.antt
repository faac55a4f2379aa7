-- ===== src/Permission/Update.antt =====
-- update_permission, save_permissions and delete_permissions of permission/perm_manager.c.
pub mod Names
pub mod Laws
pub mod Save
mod Search
pub mod Effect
pub mod Session
pub mod One
pub mod Closing
pub mod Renewal
mod Tests
use frameworks_security.Base.{ℕ, zero, suc, Option, none, some, List, [], ◌∷◌, if◌then◌else◌}
use frameworks_security.Permission.Types.{
  ℤ, pos, negsuc, PermError, noerror, generic_error, bad_input_data, invalid_permname,
  write_database_fail, unlink_error, PermissionInfo, perm_name_len, c_string,
  check_permission_valid, is_noerror,
}
use frameworks_security.Permission.Store.{Unqlite, open_readwrite, open_create}
use frameworks_security.Permission.Access.{
  Outcome, memcmp_eq, check_permission_dir, get_path, open_package, with_package,
}

module _ (u : Unqlite) where
  open u use {World, next_entry, valid_entry, cursor_key, close_db, store_fmt, remove_file}

  -- unqlite_kv_store_fmt(pDb, info->name, -1, "%d", info->state)
  unfoldable pub store_info : ℕ → PermissionInfo → World → PermError × World
  store_info db info w =
      let (done, w') = store_fmt db (c_string info.name) info.state w in
      (if done then noerror else write_database_fail, w')

  with_unit : PermError × World → Outcome u Unit
  with_unit (res, w) = some (res, tt, w)

  -- The loop of update_permission.
  unfoldable pub update_entries : ℕ → PermissionInfo → ℕ → ℕ → World → Outcome u Unit
  unfolding store_info with_unit
  update_entries zero info db cur w = none
  update_entries (suc fuel) info db cur w =
      let rest = update_entries fuel info db cur (next_entry cur w) in
      if valid_entry cur w
      then (if memcmp_eq (cursor_key cur perm_name_len w) info.name
          then with_unit (store_info db info w)
          else rest)
      else some (noerror, tt, w)

  -- The loop of save_permissions over the first `perm_num` elements.
  unfoldable pub save_entries : ℕ → ℕ → List PermissionInfo → World → Outcome u Unit
  unfolding store_info with_unit
  save_entries db zero info w = some (noerror, tt, w)
  save_entries db (suc perm_num) [] w = none
  save_entries db (suc perm_num) (i ∷ info) w =
      let (res, w') = store_info db i w in
      let skipped = save_entries db perm_num info w in
      let stored = save_entries db perm_num info w' in
      if is_noerror (check_permission_valid i.name)
      then (if is_noerror res then stored else with_unit (res, w'))
      else skipped

  close_after : ℕ → Outcome u Unit → Outcome u Unit
  close_after db none = none
  close_after db (some (res, a, w)) = some (res, a, close_db db w)

  save_opened : (ℕ → World → Outcome u Unit) → Outcome u ℕ → Outcome u Unit
  unfolding close_after
  save_opened body none = none
  save_opened body (some (res, db, w)) =
      if is_noerror res then close_after db (body db w) else some (res, tt, w)

  delete_path : Outcome u (List ℕ) → Outcome u Unit
  delete_path none = none
  delete_path (some (res, path, w)) =
      if is_noerror res
      then (let (done, w') = remove_file path w in
          some (if done then noerror else unlink_error, tt, w'))
      else some (generic_error, tt, w)

module _ (u : Unqlite) (path_max : ℕ) where
  open u use {World}

  unfoldable pub update_permission :
      ℕ → Option (List ℕ) → Option PermissionInfo → World → Outcome u Unit
  unfolding with_package update_entries
  update_permission fuel none info w = some (bad_input_data, tt, w)
  update_permission fuel (some package_name) none w = some (bad_input_data, tt, w)
  update_permission fuel (some package_name) (some info) w =
      if is_noerror (check_permission_valid info.name)
      then with_package u path_max open_readwrite package_name tt (update_entries u fuel info) w
      else some (invalid_permname, tt, w)

  unfoldable pub save_permissions :
      Option (List ℕ) → Option (List PermissionInfo) → ℤ → World → Outcome u Unit
  unfolding save_entries save_opened open_package
  save_permissions none info perm_num w = some (bad_input_data, tt, w)
  save_permissions (some package_name) none perm_num w = some (bad_input_data, tt, w)
  save_permissions (some package_name) (some info) (negsuc n) w = some (bad_input_data, tt, w)
  save_permissions (some package_name) (some info) (pos zero) w = some (bad_input_data, tt, w)
  save_permissions (some package_name) (some info) (pos (suc n)) w =
      save_opened u (λ db. save_entries u db (suc n) info)
        (open_package u path_max open_create package_name w)

  -- delete_permissions; a null package name is read by strcat.
  unfoldable pub delete_permissions : Option (List ℕ) → World → Outcome u Unit
  unfolding get_path delete_path
  delete_permissions none w =
      let (res, w') = check_permission_dir u w in
      if is_noerror res then none else some (generic_error, tt, w')
  delete_permissions (some package_name) w = delete_path u (get_path u path_max package_name w)
