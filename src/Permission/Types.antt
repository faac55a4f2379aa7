-- ===== src/Permission/Types.antt =====
-- The constants and the C strings of permission/perm_manager.h and permission/perm_manager.c.
unfoldable pub use frameworks_security.Base.{codes, c_string}
use frameworks_security.Decimal.{is_digit}
use frameworks_security.Base.{
  ℕ, zero, suc, ◌+◌, ◌-◌, ◌*◌, leb, ◌&&◌, ◌||◌, Bool, true, false, List, [], ◌∷◌, ◌++◌, take,
  replicate, ◌==◌, bytes_eq, if◌then◌else◌,
}

-- PERM_ERROR_*; PERM_ERROR_UNLINK_ERROR and PERM_ERROR_RECORD_ERROR are one number.
pub data PermError : Type 0 where
  noerror generic_error bad_input_data invalid_permname open_database_fail write_database_fail
        unlink_error :
      PermError

abbrev pub perm_name_len : ℕ
perm_name_len = 36

abbrev pub pkg_name_len : ℕ
pkg_name_len = 64

abbrev pub perm_sys_app_uid_max : ℕ
perm_sys_app_uid_max = 999

-- RECORD_KEEP_TIME(days), in seconds.
abbrev pub record_keep_time : ℕ → ℕ
record_keep_time days = days * 24 * 60 * 60

-- strncpy(…, s, n): the array afterwards.
unfoldable pub strncpy : ℕ → List ℕ → List ℕ
strncpy n s = take n (c_string s ++ replicate n 0)

-- strcmp(a, b) == 0
unfoldable pub strcmp_eq : List ℕ → List ℕ → Bool
strcmp_eq a b = bytes_eq (c_string a) (c_string b)

-- Integers; `negsuc n` is -(n + 1).
pub data ℤ : Type 0 where
  pos : ℕ → ℤ
  negsuc : ℕ → ℤ

unfoldable pub negate : ℕ → ℤ
negate zero = pos 0
negate (suc n) = negsuc n

unfoldable pub is_space : ℕ → Bool
is_space c = c == 32 || (leb 9 c && leb c 13)

unfoldable pub atoi_digits : ℕ → List ℕ → ℕ
unfolding is_digit
atoi_digits n [] = n
atoi_digits n (c ∷ cs) =
    let rest = atoi_digits (n * 10 + (c - b'0')) cs in if is_digit c then rest else n

unfoldable pub atoi_sign : List ℕ → ℤ
unfolding atoi_digits negate
atoi_sign [] = pos 0
atoi_sign (c ∷ cs) =
    if c == b'-'
    then negate (atoi_digits 0 cs)
    else pos (atoi_digits 0 (if c == b'+' then cs else c ∷ cs))

-- atoi of the C library, where the number fits an int.
unfoldable pub atoi : List ℕ → ℤ
unfolding atoi_sign is_space
atoi [] = pos 0
atoi (c ∷ cs) = let rest = atoi cs in if is_space c then rest else atoi_sign (c ∷ cs)

-- struct permission_info; `name` and `desc` are the char arrays.
pub record PermissionInfo : Type 0 where
  pub name : List ℕ
  pub desc : List ℕ
  pub state : ℤ

-- NOGRANTED and GRANTED of enum perm_stat.
abbrev pub nogranted : ℤ
nogranted = pos 0

abbrev pub granted : ℤ
granted = pos 1

-- g_permission_name
abbrev pub g_permission_name : List (List ℕ)
g_permission_name =
    codes "vela.permission.LOCATION"
    ∷ codes "vela.permission.STEP_COUNTER"
    ∷ codes "vela.permission.DEVICE_INFO"
    ∷ codes "vela.permission.RECORD"
    ∷ codes "vela.permission.RECORD_AUDIO"
    ∷ codes "vela.permission.BLUETOOTH"
    ∷ codes "vela.permission.READ_PHONE_STATE"
    ∷ codes "vela.permission.SEND_SMS"
    ∷ codes "vela.permission.RECEIVE_SMS"
    ∷ codes "vela.permission.INTERNET"
    ∷ codes "vela.permission.WRITE_CONTACTS"
    ∷ codes "vela.permission.READ_CONTACTS"
    ∷ codes "vela.permission.WRITE_CALL_LOG"
    ∷ codes "vela.permission.READ_CALL_LOG"
    ∷ codes "vela.permission.READ_SMS"
    ∷ codes "vela.permission.NFC"
    ∷ codes "vela.permission.CALL_PHONE"
    ∷ codes "vela.permission.READ_MEDIA_DATA"
    ∷ codes "vela.permission.WRITE_CALENDAR"
    ∷ codes "vela.permission.READ_CALENDAR"
    ∷ codes "vela.permission.READ_HEALTH_DATA"
    ∷ codes "vela.permission.ACCELEROMETER"
    ∷ codes "vela.permission.GYROSCOPE"
    ∷ codes "vela.permission.ACTIVITY_MOTION"
    ∷ codes "vela.permission.GESTURE_DETECTION"
    ∷ []

abbrev pub internet : List ℕ
internet = codes "vela.permission.INTERNET"

unfoldable pub name_listed : List ℕ → List (List ℕ) → Bool
unfolding strcmp_eq
name_listed perm_name [] = false
name_listed perm_name (name ∷ names) = strcmp_eq perm_name name || name_listed perm_name names

-- check_permission_valid
unfoldable pub check_permission_valid : List ℕ → PermError
unfolding name_listed
check_permission_valid perm_name =
    if name_listed perm_name g_permission_name then noerror else invalid_permname

abbrev pub is_noerror : PermError → Bool
is_noerror noerror = true
is_noerror _ = false
