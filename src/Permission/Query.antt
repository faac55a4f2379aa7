-- ===== src/Permission/Query.antt =====
-- query_permission of permission/perm_manager.c. An `info` that is NULL, and one that is an array,
-- are two functions; `none` is a loop that ran past the array or out of fuel.
pub mod Count
use frameworks_security.Base.{
  ℕ, zero, suc, ◌+◌, Option, none, some, List, [], ◌∷◌, ◌++◌, drop, length, if◌then◌else◌,
}
use frameworks_security.Permission.Types.{noerror, bad_input_data, PermissionInfo, perm_name_len}
use frameworks_security.Permission.Store.{Unqlite, open_readonly}
use frameworks_security.Permission.Access.{Outcome, data_consumer_callback, with_package}

module _ (u : Unqlite) where
  open u use {World, next_entry, valid_entry, cursor_key, cursor_data, uninitialised}

  -- The loop of query_permission that counts.
  unfoldable pub count_entries : ℕ → ℕ → ℕ → World → Outcome u ℕ
  count_entries zero n cur w = none
  count_entries (suc fuel) n cur w =
      let rest = count_entries fuel (n + 1) cur (next_entry cur w) in
      if valid_entry cur w then rest else some (noerror, n, w)

  -- An element of `info` as the loop of query_permission writes it: the key is copied over the
  -- first bytes of the name.
  unfoldable pub fill_info : ℕ → PermissionInfo → World → PermissionInfo
  unfolding data_consumer_callback
  fill_info cur info w =
      let key = cursor_key cur perm_name_len w in
      record info {
        name = key ++ drop (length key) info.name;
        state = data_consumer_callback u (cursor_data cur w) (uninitialised w) w;
      }

  cons_info : PermissionInfo → Outcome u (List PermissionInfo) → Outcome u (List PermissionInfo)
  cons_info filled none = none
  cons_info filled (some (res, info, w)) = some (res, filled ∷ info, w)

  -- The loop of query_permission that fills `info`, `permissions_num` elements at most.
  unfoldable pub fill_entries :
      ℕ → ℕ → List PermissionInfo → World → Outcome u (List PermissionInfo)
  unfolding fill_info cons_info
  fill_entries cur zero info w = some (noerror, info, w)
  fill_entries cur (suc permissions_num) [] w =
      if valid_entry cur w then none else some (noerror, [], w)
  fill_entries cur (suc permissions_num) (i ∷ info) w =
      let rest = fill_entries cur permissions_num info (next_entry cur w) in
      if valid_entry cur w then cons_info (fill_info cur i w) rest else some (noerror, i ∷ info, w)

module _ (u : Unqlite) (path_max : ℕ) where
  open u use {World}

  -- query_permission with `info == NULL`.
  unfoldable pub query_permission_count : ℕ → Option (List ℕ) → ℕ → World → Outcome u ℕ
  query_permission_count fuel none permissions_num w = some (bad_input_data, permissions_num, w)
  query_permission_count fuel (some package_name) permissions_num w =
      with_package u path_max open_readonly package_name permissions_num
        (λ db cur. count_entries u fuel 0 cur) w

  -- query_permission with an array `info`.
  unfoldable pub query_permission_fill :
      Option (List ℕ) → List PermissionInfo → ℕ → World → Outcome u (List PermissionInfo)
  unfolding with_package fill_entries
  query_permission_fill none info permissions_num w = some (bad_input_data, info, w)
  query_permission_fill (some package_name) info permissions_num w =
      with_package u path_max open_readonly package_name info
        (λ db cur. fill_entries u cur permissions_num info) w
