-- ===== src/Permission/Check.antt =====
-- check_permission of permission/perm_manager.c, with the callback of perm_notify_registry as an
-- argument.
pub mod Lookup
pub mod Decision
pub mod Exact
use frameworks_security.Base.{
  ℕ, zero, suc, Bool, true, false, not, ◌&&◌, Option, none, some, List, leb, if◌then◌else◌,
}
use frameworks_security.Permission.Types.{
  ℤ, pos, negsuc, noerror, bad_input_data, invalid_permname, PermissionInfo, granted, perm_name_len,
  perm_sys_app_uid_max, strcmp_eq, internet, check_permission_valid, is_noerror,
}
use frameworks_security.Permission.Store.{Unqlite, open_readonly}
use frameworks_security.Permission.Access.{Outcome, memcmp_eq, data_consumer_callback, with_package}

-- uid <= PERM_SYS_APP_UID_MAX
unfoldable pub is_system_uid : ℤ → Bool
is_system_uid (pos n) = leb n perm_sys_app_uid_max
is_system_uid (negsuc n) = true

abbrev has_callback : {A : Type 0} → Option A → Bool
has_callback none = false
has_callback (some _) = true

module _ (u : Unqlite) where
  open u use {World, next_entry, valid_entry, cursor_key, cursor_data, uninitialised}

  -- The loop of check_permission.
  unfoldable pub check_entries : ℕ → PermissionInfo → ℕ → World → Outcome u PermissionInfo
  unfolding data_consumer_callback
  check_entries zero info cur w = none
  check_entries (suc fuel) info cur w =
      let rest = check_entries fuel info cur (next_entry cur w) in
      if valid_entry cur w
      then (if memcmp_eq (cursor_key cur perm_name_len w) info.name
          then some (
            noerror,
            record info {
              state = data_consumer_callback u (cursor_data cur w) (uninitialised w) w;
            },
            w,
          )
          else rest)
      else some (noerror, info, w)

  -- The test of check_permission after its loop.
  unfoldable pub after_entries : ℕ → Outcome u PermissionInfo → Outcome u PermissionInfo
  after_entries cur none = none
  after_entries cur (some (ret, info, w)) =
      some (if valid_entry cur w then ret else invalid_permname, info, w)

  -- g_perm_notify_cb; `none` if it is NULL or CONFIG_PERM_NOTIFY is not set.
  abbrev pub NotifyCallback : Type 0
  NotifyCallback = Option (List ℕ → PermissionInfo → World → PermissionInfo × World)

  unfoldable pub notify : NotifyCallback → List ℕ → PermissionInfo → World → PermissionInfo × World
  notify none package_name info w = (info, w)
  notify (some notify_cb) package_name info w = notify_cb package_name info w

  some_info : Outcome u PermissionInfo → Outcome u (Option PermissionInfo)
  some_info none = none
  some_info (some (res, info, w)) = some (res, some info, w)

module _ (u : Unqlite) (path_max : ℕ) where
  open u use {World}

  unfoldable pub check_database : ℕ → List ℕ → PermissionInfo → World → Outcome u PermissionInfo
  unfolding with_package check_entries after_entries
  check_database fuel package_name info w =
      with_package u path_max open_readonly package_name info
        (λ db cur w'. after_entries u cur (check_entries u fuel info cur w')) w

  -- check_permission from the test of the uid on.
  unfoldable pub check_uid : ℕ → List ℕ → ℤ → PermissionInfo × World → Outcome u PermissionInfo
  unfolding check_database
  check_uid fuel package_name uid (info, w) =
      if is_system_uid uid
      then some (noerror, record info { state = granted }, w)
      else check_database fuel package_name info w

  -- check_permission of valid pointers.
  unfoldable pub check_info :
      ℕ → NotifyCallback u → List ℕ → PermissionInfo → ℤ → World → Outcome u PermissionInfo
  unfolding notify check_uid
  check_info fuel notify_cb package_name info uid w =
      if has_callback notify_cb && not (is_system_uid uid) && strcmp_eq info.name internet
      then (let (info', w') = notify u notify_cb package_name (record info { state = granted }) w in
          some (noerror, info', w'))
      else (if is_noerror (check_permission_valid info.name)
          then check_uid fuel package_name uid (notify u notify_cb package_name info w)
          else some (invalid_permname, info, w))

  -- check_permission; a null `info` is `none`, also afterwards.
  unfoldable pub check_permission :
      ℕ
      → NotifyCallback u
      → Option (List ℕ)
      → Option PermissionInfo
      → ℤ
      → World
      → Outcome u (Option PermissionInfo)
  unfolding check_info some_info
  check_permission fuel notify_cb none info uid w = some (bad_input_data, info, w)
  check_permission fuel notify_cb (some package_name) none uid w = some (bad_input_data, none, w)
  check_permission fuel notify_cb (some package_name) (some info) uid w =
      some_info u (check_info fuel notify_cb package_name info uid w)
