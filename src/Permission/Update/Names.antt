-- ===== src/Permission/Update/Names.antt =====
-- The names of g_permission_name in permission/perm_manager.c as keys of a database: which of them is
-- a prefix of which.
use mathlib.Core.Path.{ap₂}
use frameworks_security.Base.{
  ℕ, ◌≡◌, ◌≢◌, refl, sym, ap, subst, ◌∙◌, ◌≤◌, ◌==◌, ◌⊎◌, inl, inr, Bool, true, ◌&&◌, ◌||◌, not,
  leb, leb→le, Bool-cases, List, [], ◌∷◌, length, take, take_all, c_string, codes, bytes_eq,
  bytes_eq_refl, bytes_eq_sound, arith,
}
use frameworks_security.Permission.Types.{
  is_noerror, g_permission_name, name_listed, strcmp_eq, check_permission_valid, perm_name_len,
}
use frameworks_security.Permission.Access.{memcmp_eq}

-- An element of a list.
abbrev pub In : {A : Type 0} → A → List A → Type 0
In x [] = ⊥
In x (y ∷ ys) = (x ≡ y) ⊎ In x ys

abbrev pub record_name : List ℕ
record_name = codes "vela.permission.RECORD"

abbrev pub record_audio : List ℕ
record_audio = codes "vela.permission.RECORD_AUDIO"

-- A check of every listed name holds for each of them.
unfoldable pub every : (List ℕ → Bool) → List (List ℕ) → Bool
every test [] = true
every test (x ∷ xs) = test x && every test xs

pub every-In :
    (test : List ℕ → Bool) (x : List ℕ) (xs : List (List ℕ))
    → every test xs ≡ true
    → In x xs
    → test x ≡ true
unfolding every
every-In test x [] all i = elim i [ ]
every-In test x (y ∷ ys) all (inl e) = ground (arith, ap test e)
every-In test x (y ∷ ys) all (inr i) = ground (arith, every-In test x ys)

-- A valid name is a listed one, up to its first zero.
name_listed-In :
    (name : List ℕ) (names : List (List ℕ))
    → name_listed name names ≡ true
    → (x : List ℕ) × In x names × (c_string name ≡ c_string x)
unfolding name_listed strcmp_eq
name_listed-In name [] h = absurd (cc)
name_listed-In name (x ∷ xs) h = elim (Bool-cases (bytes_eq (c_string name) (c_string x))) [
  | inl same ↦ (x, inl refl, bytes_eq_sound _ _ same)
  | inr other ↦ let (y, i, e) = name_listed-In name xs (rw other at h) in (y, inr i, e)
]

-- A listed name fits a key and has no zero.
is_key : List ℕ → Bool
is_key x = bytes_eq (c_string x) x && leb (length x) perm_name_len

are_keys : every is_key g_permission_name ≡ true
unfolding every is_key c_string bytes_eq
are_keys = refl

pub listed_string : (x : List ℕ) → In x g_permission_name → c_string x ≡ x
unfolding is_key
listed_string x i =
    let h = every-In is_key x g_permission_name are_keys i in
    bytes_eq_sound (c_string x) x (ground arith)

pub listed_fits : (x : List ℕ) → In x g_permission_name → length x ≤ perm_name_len
unfolding is_key
listed_fits x i =
    let h = every-In is_key x g_permission_name are_keys i in
    leb→le (length x) perm_name_len (ground arith)

listed :
    (name : List ℕ)
    → is_noerror (check_permission_valid name) ≡ true
    → name_listed name g_permission_name ≡ true
unfolding check_permission_valid
listed name h = elim (Bool-cases (name_listed name g_permission_name)) [
  | inl yes' ↦ yes'
  | inr no' ↦ absurd (cc (rw no' at h))
]

pub valid-In :
    (name : List ℕ)
    → is_noerror (check_permission_valid name) ≡ true
    → In (c_string name) g_permission_name
valid-In name h =
    let (x, i, e) = name_listed-In name g_permission_name (listed name h) in
    subst (λ k. In k g_permission_name) (sym (e ∙ listed_string x i)) i

-- The first key, compared as far as it goes, is another name.
only_record : List ℕ → List ℕ → Bool
only_record name key = not (memcmp_eq key name) || bytes_eq key name || bytes_eq name record_audio

only_records : List ℕ → Bool
only_records name = every (only_record name) g_permission_name

no_prefixes : every only_records g_permission_name ≡ true
unfolding every only_records only_record bytes_eq
no_prefixes = refl

-- Among the listed names a key that is a prefix of another name is RECORD, and the name is
-- RECORD_AUDIO.
listed_prefix :
    (name key : List ℕ)
    → In name g_permission_name
    → In key g_permission_name
    → name ≢ record_audio
    → memcmp_eq key name ≡ true
    → key ≡ name
unfolding only_records only_record
listed_prefix name key i j other match =
    let h = every-In only_records name g_permission_name no_prefixes i in
    let k = every-In (only_record name) key g_permission_name h j in
    elim (Bool-cases (bytes_eq key name)) [
      | inl same ↦ bytes_eq_sound key name same
      | inr differ ↦ absurd (other (bytes_eq_sound name record_audio (ground arith)))
    ]

-- A text without a zero that is a prefix of an array is one of its string.
pub prefix_string :
    (key name : List ℕ)
    → c_string key ≡ key
    → take (length key) name ≡ key
    → take (length key) (c_string name) ≡ key
unfolding c_string
prefix_string [] name k e = refl
prefix_string (x ∷ key) [] k e = absurd (cc)
prefix_string (x ∷ key) (y ∷ name) k e = elim (Bool-cases (x == 0)) [
  | inl zero' ↦ absurd (cc (rw zero' at k))
  | inr byte ↦
      let head : y ≡ x = cc in
      let tail : take (length key) name ≡ key = cc in
      let same : c_string key ≡ key = cc (rw byte at k) in
      rw (ap (◌== 0) head ∙ byte) (ap₂ ◌∷◌ head (prefix_string key name same tail))
]

-- Where the keys of a database are listed names, only the key that is the name matches it.
pub memcmp_eq-listed :
    (name key : List ℕ)
    → In (c_string name) g_permission_name
    → In key g_permission_name
    → c_string name ≢ record_audio
    → memcmp_eq (take perm_name_len key) name ≡ true
    → key ≡ c_string name
memcmp_eq-listed name key i j other match =
    let short : take perm_name_len key ≡ key = take_all perm_name_len key (listed_fits key j) in
    let same : key ≡ take (length key) name =
      bytes_eq_sound key (take (length key) name) (rw short at match) in
    let same' = prefix_string key name (listed_string key j) (sym same) in
    listed_prefix (c_string name) key i j other (rw same' (bytes_eq_refl key))
