-- ===== src/Permission/Update/Tests.antt =====
-- save_permissions and delete_permissions of permission/perm_manager.c on the memory database.
use frameworks_security.Base.{
  false, true, sym, ap, ◌∙◌, inl, inr, ℕ, ◌≡◌, ◌≢◌, ◌<◌, refl, none, some, List, [], ◌∷◌, length,
  take, c_string, bytes_eq, put, ℕ_discrete, arith,
}
use frameworks_security.Permission.Types.{
  ℤ, pos, codes, noerror, PermissionInfo, granted, nogranted, g_permission_name,
  check_permission_valid, is_noerror,
}
use frameworks_security.Permission.Store.{Db, Entry, Path-discrete}
use frameworks_security.Permission.Access.{Outcome}
use frameworks_security.Permission.Laws.{package_path}
use frameworks_security.Permission.Memory.{memory, memory_laws, memory_writes, without}
use frameworks_security.Permission.Check.{check_permission, is_system_uid}
use frameworks_security.Permission.Check.Decision.{Answers}
use frameworks_security.Permission.Update.{save_permissions, delete_permissions, update_permission}
use frameworks_security.Permission.Update.Names.{valid-In, In, record_audio}
use frameworks_security.Permission.Update.Laws.{print_d}
use frameworks_security.Permission.Update.Save.{last_state, AllListed}
use frameworks_security.Permission.Update.Effect.{Saved, save_permissions_outcome}
use frameworks_security.Permission.Update.Session.{
  Grants, Deleted, save_then_check, delete_permissions_outcome,
}
use frameworks_security.Permission.Update.Closing.{Updated, update_permission_outcome}
use frameworks_security.Permission.Update.Renewal.{update_then_check}

abbrev app : List ℕ
app = codes "app"

abbrev nfc : List ℕ
nfc = codes "vela.permission.NFC"

abbrev blank : Db
blank = record { files = λ _. none; databases = λ _. none; cursors = λ _. none }

abbrev info_of : List ℕ → ℤ → PermissionInfo
info_of name state = record { name = name; desc = []; state = state }

-- The second element is no permission, and the third takes the first back.
abbrev wanted : List PermissionInfo
wanted = info_of nfc granted ∷ info_of (codes "none") granted ∷ info_of nfc nogranted ∷ []

abbrev world_of : Outcome memory Unit → Db
world_of none = blank
world_of (some (_, _, w)) = w

abbrev saved : Outcome memory Unit
saved = save_permissions memory 64 (some app) (some wanted) (pos 3) blank

app_path : length (package_path app) ≡ 20
unfolding c_string
app_path = refl

save_permissions_outcome_example :
    Saved memory memory_laws memory_writes 64
      (package_path app)
      nfc
      (last_state nfc (take 3 wanted) none)
      blank
      saved
save_permissions_outcome_example =
    save_permissions_outcome memory memory_laws memory_writes 64 app nfc 2 wanted blank
      (omega (arith, app_path)) (omega arith) (λ k v i. elim i [ ])

saved-eq : saved ≡ some (noerror, tt, world_of saved)
unfolding save_permissions check_permission_valid c_string bytes_eq put ℕ_discrete Path-discrete
    print_d without
saved-eq = refl

app_file : (world_of saved).files (package_path app) ≡ some ((nfc, codes "0") ∷ [])
unfolding save_permissions check_permission_valid c_string bytes_eq put ℕ_discrete Path-discrete
    print_d without
app_file = refl

last : last_state nfc (take 3 wanted) none ≡ some nogranted
unfolding last_state check_permission_valid c_string bytes_eq
last = refl

app_enough : (es : List Entry) → (world_of saved).files (package_path app) ≡ some es → length es < 3
app_enough es e = ground (arith, app_file)

nfc_listed : In (c_string nfc) g_permission_name
unfolding c_string check_permission_valid bytes_eq
nfc_listed = valid-In nfc refl

nfc_valid : is_noerror (check_permission_valid nfc) ≡ true
unfolding check_permission_valid c_string bytes_eq
nfc_valid = refl

app_uid : is_system_uid (pos 30000) ≡ false
unfolding is_system_uid
app_uid = refl

nfc_other : c_string nfc ≢ record_audio
unfolding c_string
nfc_other e = cc

-- The application may not use NFC after all.
save_then_check_example :
    Answers memory
      (Grants memory memory_laws memory_writes 64 (info_of nfc granted) nogranted)
      (info_of nfc granted)
      (world_of saved)
      (check_permission memory 64 3 none
        (some app)
        (some (info_of nfc granted))
        (pos 30000)
        (world_of saved))
unfolding c_string
save_then_check_example =
    save_then_check memory memory_laws memory_writes 64 app 2 3 wanted (info_of nfc granted)
      (pos 30000) nogranted blank (world_of saved) (omega (arith, app_path)) (omega arith)
      (λ k v i. elim i [ ]) saved-eq last (omega arith) nfc_valid app_uid nfc_other app_enough
      (λ _. refl)

abbrev deleted : Outcome memory Unit
deleted = delete_permissions memory 64 (some app) (world_of saved)

deleted-eq : deleted ≡ some (noerror, tt, world_of deleted)
unfolding save_permissions check_permission_valid c_string bytes_eq put ℕ_discrete Path-discrete
    print_d without delete_permissions
deleted-eq = refl

delete_permissions_outcome_example :
    Deleted memory memory_laws memory_writes 64 (package_path app) (world_of saved) deleted
delete_permissions_outcome_example =
    delete_permissions_outcome memory memory_laws memory_writes 64 app (world_of saved)
      (omega (arith, app_path))

-- The application may use NFC, and then not.
abbrev allowed : Db
allowed = record blank {
  files = put Path-discrete blank.files (package_path app) (some ((nfc, codes "1") ∷ []));
}

abbrev updated : Outcome memory Unit
updated = update_permission memory 64 3 (some app) (some (info_of nfc nogranted)) allowed

updated-eq : updated ≡ some (noerror, tt, world_of updated)
unfolding update_permission check_permission_valid c_string bytes_eq put ℕ_discrete Path-discrete
    print_d without
updated-eq = refl

updated_file : (world_of updated).files (package_path app) ≡ some ((nfc, codes "0") ∷ [])
unfolding update_permission check_permission_valid c_string bytes_eq put ℕ_discrete Path-discrete
    print_d without
updated_file = refl

updated_enough :
    (es : List Entry) → (world_of updated).files (package_path app) ≡ some es → length es < 3
updated_enough es e = ground (arith, updated_file)

allowed_file : allowed.files (package_path app) ≡ some ((nfc, codes "1") ∷ [])
unfolding put
allowed_file = ground arith

allowed_enough : (es : List Entry) → allowed.files (package_path app) ≡ some es → length es < 3
allowed_enough es e = ground (arith, allowed_file)

nfc_string : c_string nfc ≡ nfc
unfolding c_string
nfc_string = refl

nfc-AllListed : AllListed ((nfc, codes "1") ∷ [])
nfc-AllListed k v (inl e) =
    let key : k ≡ c_string nfc = ap (λ (x : Entry). x.0) e ∙ sym nfc_string in rw key nfc_listed
nfc-AllListed k v (inr i) = elim i [ ]

update_permission_outcome_example :
    Updated memory memory_laws memory_writes
      (package_path app)
      (info_of nfc nogranted)
      allowed
      updated
update_permission_outcome_example =
    update_permission_outcome memory memory_laws memory_writes 64 3 app (info_of nfc nogranted)
      allowed nfc_valid (omega (arith, app_path)) allowed_enough

update_then_check_example :
    Answers memory
      (Grants memory memory_laws memory_writes 64 (info_of nfc granted) nogranted)
      (info_of nfc granted)
      (world_of updated)
      (check_permission memory 64 3 none
        (some app)
        (some (info_of nfc granted))
        (pos 30000)
        (world_of updated))
update_then_check_example =
    update_then_check memory memory_laws memory_writes 64 app (codes "1") 3 (info_of nfc nogranted)
      (info_of nfc granted) ((nfc, codes "1") ∷ []) (pos 30000) allowed (world_of updated)
      (omega (arith, app_path)) allowed_file nfc-AllListed
      (inl (ap (λ k. (k, codes "1")) nfc_string)) (omega arith) nfc_valid app_uid nfc_other
      (omega arith) refl updated-eq updated_enough (λ _. refl)
