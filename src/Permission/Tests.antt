-- ===== src/Permission/Tests.antt =====
-- The permission database of permission/perm_manager.c on the memory database: a package that was
-- granted the permission RECORD and nothing else.
use frameworks_security.Base.{
  true, false, inl, inr, sym, ap, ◌∙◌, ℕ, ◌<◌, ◌≡◌, refl, none, some, List, [], ◌∷◌, length,
  bytes_eq, if◌then◌else◌, arith,
}
use frameworks_security.Permission.Types.{
  PermissionInfo, codes, c_string, nogranted, pos, is_noerror, check_permission_valid,
}
use frameworks_security.Permission.Store.{Db, Entry}
use frameworks_security.Permission.Laws.{package_path}
use frameworks_security.Permission.Memory.{memory, memory_laws}
use frameworks_security.Permission.Check.{check_permission, is_system_uid}
use frameworks_security.Permission.Check.Decision.{Answers, FromFile, check_permission_decides}
use frameworks_security.Permission.Check.Exact.{FromNames, find_name, check_permission_by_name}
use frameworks_security.Permission.Update.Names.{valid-In, record_audio}
use frameworks_security.Permission.Update.Save.{AllListed}

abbrev app : List ℕ
app = codes "app"

abbrev record_key : List ℕ
record_key = codes "vela.permission.RECORD"

abbrev app_entries : List Entry
app_entries = (record_key, codes "1") ∷ (codes "vela.permission.NFC", codes "0") ∷ []

abbrev disk : Db
disk = record {
  files = λ path. if bytes_eq path (codes "/data/permission/app") then some app_entries else none;
  databases = λ _. none;
  cursors = λ _. none;
}

abbrev info_of : List ℕ → PermissionInfo
info_of name = record { name = name; desc = []; state = nogranted }

app_file : disk.files (package_path app) ≡ some app_entries
unfolding c_string bytes_eq
app_file = refl

app_path : length (package_path app) ≡ 20
unfolding c_string
app_path = refl

app_enough :
    (entries : List Entry) → disk.files (package_path app) ≡ some entries → length entries < 3
app_enough entries e = ground (arith, app_file)

nfc_valid : is_noerror (check_permission_valid (codes "vela.permission.NFC")) ≡ true
unfolding check_permission_valid c_string bytes_eq
nfc_valid = refl

app_uid : is_system_uid (pos 30000) ≡ false
unfolding is_system_uid
app_uid = refl

check_permission_decides_example :
    Answers memory
      (FromFile memory 64 (info_of (codes "vela.permission.NFC")) (disk.files (package_path app)))
      (info_of (codes "vela.permission.NFC"))
      disk
      (check_permission memory 64 3 none
        (some app)
        (some (info_of (codes "vela.permission.NFC")))
        (pos 30000)
        disk)
check_permission_decides_example =
    check_permission_decides memory 64 memory_laws 3 app (info_of (codes "vela.permission.NFC"))
      (pos 30000) disk nfc_valid app_uid (rw app_path (omega arith)) app_enough (λ _. refl)

-- The package may RECORD, so it may RECORD_AUDIO.
audio_valid : is_noerror (check_permission_valid record_audio) ≡ true
unfolding check_permission_valid c_string bytes_eq
audio_valid = refl

record_valid : is_noerror (check_permission_valid record_key) ≡ true
unfolding check_permission_valid c_string bytes_eq
record_valid = refl

record_string : c_string record_key ≡ record_key
unfolding c_string
record_string = refl

nfc_string : c_string (codes "vela.permission.NFC") ≡ codes "vela.permission.NFC"
unfolding c_string
nfc_string = refl

app-AllListed : AllListed app_entries
app-AllListed k v (inl e) =
    let key : k ≡ c_string record_key = ap (λ (x : Entry). x.0) e ∙ sym record_string in
    rw key (valid-In record_key record_valid)
app-AllListed k v (inr (inl e)) =
    let key : k ≡ c_string (codes "vela.permission.NFC") =
      ap (λ (x : Entry). x.0) e ∙ sym nfc_string in
    rw key (valid-In (codes "vela.permission.NFC") nfc_valid)
app-AllListed k v (inr (inr i)) = elim i [ ]

check_permission_by_name_example :
    Answers memory
      (FromNames memory 64 memory_laws (info_of record_audio) app_entries)
      (info_of record_audio)
      disk
      (check_permission memory 64 3 none (some app) (some (info_of record_audio)) (pos 30000) disk)
check_permission_by_name_example =
    check_permission_by_name memory 64 memory_laws 3 app (info_of record_audio) (pos 30000)
      app_entries disk audio_valid app_uid (rw app_path (omega arith)) app_file app-AllListed
      (omega arith) (λ _. refl)

-- It is given what RECORD has.
audio_found : find_name (c_string record_audio) app_entries ≡ some (record_key, codes "1")
unfolding find_name c_string bytes_eq
audio_found = refl
