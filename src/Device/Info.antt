-- ===== src/Device/Info.antt =====
-- The key-value file of the device information in tools/set_model/set_model_api.c: check_dir_status,
-- is_key_exist, device_info_get, device_info_set, device_info_clear and default_device_info_set.
-- `none` is an access outside a buffer or a loop out of fuel.
pub mod Lookup
pub mod Fuel
pub mod Session
pub mod Memory
mod Tests
use frameworks_security.Base.{
  ℕ, zero, suc, ◌-◌, ◌==◌, ◌&&◌, Bool, true, false, Option, none, some, List, [], ◌∷◌, ◌++◌, length,
  take, drop, bytes_eq, c_string, codes, memcpy, if◌then◌else◌,
}
use frameworks_security.Device.{Files}

abbrev pub newline : ℕ
newline = 10

abbrev pub quote : ℕ
quote = 34

abbrev pub equals : ℕ
equals = 61

-- fgets of up to `n` bytes: the line, and what is left of the file.
unfoldable pub fgets : ℕ → List ℕ → List ℕ × List ℕ
fgets zero bytes = ([], bytes)
fgets (suc n) [] = ([], [])
fgets (suc n) (x ∷ xs) =
    let (line, rest) = fgets n xs in if x == newline then (x ∷ [], xs) else (x ∷ line, rest)

-- The bytes before the first `stop`, and those behind it.
unfoldable pub before : ℕ → List ℕ → List ℕ
before stop [] = []
before stop (x ∷ xs) = let rest = before stop xs in if x == stop then [] else x ∷ rest

unfoldable pub behind : ℕ → List ℕ → List ℕ
behind stop [] = []
behind stop (x ∷ xs) = let rest = behind stop xs in if x == stop then xs else rest

unfoldable pub skip : ℕ → List ℕ → List ℕ
skip delim [] = []
skip delim (x ∷ xs) = let rest = skip delim xs in if x == delim then rest else x ∷ xs

-- strtok with one delimiter: the token, and what the next call goes on with.
unfoldable pub token : ℕ → List ℕ → Option (List ℕ × List ℕ)
unfolding before behind
token delim [] = none
token delim (x ∷ xs) = some (before delim (x ∷ xs), behind delim (x ∷ xs))

unfoldable pub strtok : ℕ → List ℕ → Option (List ℕ × List ℕ)
unfolding token skip
strtok delim s = token delim (skip delim s)

-- The last byte of a list that is not empty.
unfoldable pub ends_with : ℕ → List ℕ → Bool
ends_with b [] = false
ends_with b (x ∷ []) = x == b
ends_with b (x ∷ (y ∷ ys)) = ends_with b (y ∷ ys)

unfoldable pub starts_with : ℕ → List ℕ → Bool
starts_with b [] = false
starts_with b (x ∷ xs) = x == b

-- The quotes around a value are taken off.
unfoldable pub unquote : List ℕ → List ℕ
unfolding starts_with ends_with
unquote v = if starts_with quote v && ends_with quote v then take (length v - 2) (drop 1 v) else v

-- The value behind the key.
unfoldable pub read_value : List ℕ → Option (List ℕ)
unfolding strtok unquote
read_value rest = elim (strtok newline rest) [ none ↦ none | some (v, _) ↦ some (unquote v) ]

unfoldable pub value_if : List ℕ → Option (List ℕ × List ℕ) → Option (List ℕ)
unfolding read_value bytes_eq
value_if key none = none
value_if key (some (read_key, rest)) = if bytes_eq read_key key then read_value rest else none

-- The value that one line has for the key.
unfoldable pub line_value : List ℕ → List ℕ → Option (List ℕ)
unfolding value_if strtok before c_string
line_value key line = value_if key (strtok equals (before newline (c_string line)))

-- `break` at the first line with a value, and the loop otherwise.
abbrev pub first : Option (List ℕ) → Option (Option (List ℕ)) → Option (Option (List ℕ))
first none more = more
first (some v) more = some (some v)

-- The loop of is_key_exist, on fuel: the value, if there is one.
unfoldable pub scan : ℕ → List ℕ → List ℕ → Option (Option (List ℕ))
unfolding fgets line_value
scan zero key bytes = none
scan (suc n) key [] = some none
scan (suc n) key (x ∷ xs) =
    let (line, rest) = fgets 63 (x ∷ xs) in first (line_value key line) (scan n key rest)

-- The streams of the C library, as parameters.
pub record Streams (f : Files) : Type 0 where
  -- fopen(path, "r"); the stream, and what it reads
  pub fopen_read : List ℕ → f.World → Option (ℕ × List ℕ) × f.World
  -- fopen(path, "a+")
  pub fopen_append : List ℕ → f.World → Option ℕ × f.World
  -- fprintf(p, "%s", bytes) >= 0
  pub fprintf : ℕ → List ℕ → f.World → Bool × f.World
  pub fclose : ℕ → f.World → f.World
  -- open(path, O_WRONLY), and ftruncate(fd, 0) == 0
  pub open_write : List ℕ → f.World → Option ℕ × f.World
  pub ftruncate : ℕ → f.World → Bool × f.World

-- `%s="%s"\n` of a key and a value
unfoldable pub printed : List ℕ → List ℕ → List ℕ
printed key value = key ++ (equals ∷ (quote ∷ (value ++ (quote ∷ (newline ∷ [])))))

-- DEVICE_INFO_PATH is a parameter of the build.
module _ (f : Files) (s : Streams f) (device_info_path : List ℕ) where
  open f use {World, access, mkdir, close}
  open s use {fopen_read, fopen_append, fprintf, fclose, open_write, ftruncate}

  -- check_dir_status
  unfoldable pub check_dir_status : World → Bool × World
  check_dir_status w =
      if access (codes "/data/etc") w then (true, w) else mkdir (codes "/data/etc") w

  -- is_key_exist: -1 where the file is not opened, and otherwise the value, if there is one.
  unfoldable pub key_scanned :
      List ℕ → Option (ℕ × List ℕ) × World → Option (Option (Option (List ℕ)) × World)
  unfolding scan
  key_scanned key (none, w) = some (none, w)
  key_scanned key (some (file, bytes), w) = elim (scan (suc (length bytes)) key bytes) [
    | none ↦ none
    | some found ↦ some (some found, fclose file w)
  ]

  unfoldable pub is_key_exist : List ℕ → World → Option (Option (Option (List ℕ)) × World)
  unfolding key_scanned
  is_key_exist key w = key_scanned key (fopen_read device_info_path w)

  -- strncpy(value, read_value, read_length): no zero is written behind the value.
  unfoldable pub got :
      List ℕ → Option (Option (Option (List ℕ)) × World) → Option (Bool × List ℕ × World)
  got value none = none
  got value (some (none, w)) = some (true, value, w)
  got value (some (some none, w)) = some (false, value, w)
  got value (some (some (some v), w)) = elim (memcpy 0 (length v) v value) [
    | none ↦ none
    | some value' ↦ some (true, value', w)
  ]

  -- device_info_get; whether it returns 0, and the caller's buffer
  unfoldable pub device_info_get : List ℕ → List ℕ → World → Option (Bool × List ℕ × World)
  unfolding check_dir_status is_key_exist got
  device_info_get key value w =
      let (there, w1) = check_dir_status w in
      if there then got value (is_key_exist key w1) else some (false, value, w1)

  unfoldable pub append_line : List ℕ → Option ℕ × World → Bool × World
  append_line line (none, w) = (false, w)
  append_line line (some p, w) = let (wrote, w1) = fprintf p line w in (wrote, fclose p w1)

  unfoldable pub set :
      List ℕ → List ℕ → Option (Option (Option (List ℕ)) × World) → Option (Bool × World)
  unfolding append_line printed
  set key value none = none
  set key value (some (some (some _), w)) = some (true, w)
  set key value (some (some none, w)) =
      some (append_line (printed key value) (fopen_append device_info_path w))
  set key value (some (none, w)) =
      some (append_line (printed key value) (fopen_append device_info_path w))

  -- device_info_set
  unfoldable pub device_info_set : List ℕ → List ℕ → World → Option (Bool × World)
  unfolding check_dir_status is_key_exist set
  device_info_set key value w =
      let (there, w1) = check_dir_status w in
      if there then set key value (is_key_exist key w1) else some (false, w1)

  unfoldable pub truncated : Option ℕ × World → Bool × World
  truncated (none, w) = (false, w)
  truncated (some fd, w) = let (cut, w1) = ftruncate fd w in (cut, close fd w1)

  -- device_info_clear
  unfoldable pub device_info_clear : World → Bool × World
  unfolding check_dir_status truncated
  device_info_clear w =
      let (there, w1) = check_dir_status w in
      if there then truncated (open_write device_info_path w1) else (false, w1)

  -- default_device_info_set, of the keys and the values of the build
  unfoldable pub default_device_info_set : List (List ℕ × List ℕ) → World → Option (Bool × World)
  unfolding device_info_set
  default_device_info_set [] w = some (true, w)
  default_device_info_set ((key, value) ∷ rest) w = elim (device_info_set key value w) [
    | none ↦ none
    | some (true, w1) ↦ default_device_info_set rest w1
    | some (false, w1) ↦ some (false, w1)
  ]
