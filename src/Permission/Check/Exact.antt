-- ===== src/Permission/Check/Exact.antt =====
-- The search of check_permission in permission/perm_manager.c against a search by whole names, on a
-- database whose keys are names of g_permission_name.
use mathlib.Core.Path.{ap₂}
use frameworks_security.Base.{
  ℕ, ◌≡◌, refl, sym, ap, ◌∙◌, ◌<◌, ◌==◌, ◌&&◌, ◌||◌, Bool, true, false, Bool-cases, inl, inr,
  Option, none, some, List, [], ◌∷◌, length, take, take_all, c_string, bytes_eq, bytes_eq_refl,
  bytes_eq_sound, not, if◌then◌else◌,
}
use frameworks_security.Permission.Types.{
  ℤ, PermError, PermissionInfo, g_permission_name, perm_name_len, check_permission_valid,
  is_noerror,
}
use frameworks_security.Permission.Store.{Unqlite, Entry, CursorLaws}
use frameworks_security.Permission.Access.{memcmp_eq}
use frameworks_security.Permission.Laws.{package_path}
use frameworks_security.Permission.Check.{is_system_uid, check_permission}
use frameworks_security.Permission.Check.Lookup.{find_entry}
use frameworks_security.Permission.Check.Decision.{
  decision, Answers, Answers-map, FromFile, check_permission_decides,
}
use frameworks_security.Permission.Update.Names.{
  In, every, every-In, valid-In, prefix_string, listed_string, listed_fits, record_audio,
  record_name,
}
use frameworks_security.Permission.Update.Save.{AllListed}

-- A key stands for its own name, and RECORD stands for RECORD_AUDIO too.
abbrev pub stands_for : List ℕ → List ℕ → Bool
stands_for key name = bytes_eq key name || (bytes_eq name record_audio && bytes_eq key record_name)

-- The first entry whose key stands for the name.
unfoldable pub find_name : List ℕ → List Entry → Option Entry
find_name name [] = none
find_name name (e ∷ es) =
    let rest = find_name name es in if stands_for e.0 name then some e else rest

agree : List ℕ → List ℕ → Bool
agree name key = if memcmp_eq key name then stands_for key name else not (stands_for key name)

all_agree : List ℕ → Bool
all_agree name = every (agree name) g_permission_name

names_agree : every all_agree g_permission_name ≡ true
unfolding every all_agree agree bytes_eq
names_agree = refl

memcmp_eq-stands_for :
    (name key : List ℕ)
    → In name g_permission_name
    → In key g_permission_name
    → memcmp_eq key name ≡ stands_for key name
unfolding all_agree agree
memcmp_eq-stands_for name key i j =
    let same =
      every-In (agree name) key g_permission_name
        (every-In all_agree name g_permission_name names_agree i) j in
    elim (Bool-cases (memcmp_eq key name)) [
      | inl hit ↦ hit ∙ sym (rw hit at same)
      | inr miss ↦ miss ∙ sym (negated (stands_for key name) (rw miss at same))
    ]
  where
    negated : (b : Bool) → not b ≡ true → b ≡ false
    negated true e = cc
    negated false e = refl

prefix_back :
    (key name : List ℕ) → take (length key) (c_string name) ≡ key → take (length key) name ≡ key
unfolding c_string
prefix_back [] name e = refl
prefix_back (x ∷ key) [] e = e
prefix_back (x ∷ key) (y ∷ name) e = elim (Bool-cases (y == 0)) [
  | inl end ↦ absurd (cc (rw end at e))
  | inr byte ↦
      let whole : y ∷ take (length key) (c_string name) ≡ x ∷ key = rw byte at e in
      let head : y ≡ x = cc in
      let tail : take (length key) (c_string name) ≡ key = cc in
      ap₂ ◌∷◌ head (prefix_back key name tail)
]

-- The bytes behind a name's zero do not matter for a key without one.
memcmp_eq-string :
    (key name : List ℕ) → c_string key ≡ key → memcmp_eq key name ≡ memcmp_eq key (c_string name)
memcmp_eq-string key name k = elim (Bool-cases (memcmp_eq key name)) [
  | inl hit ↦
      let found =
        prefix_string key name k (sym (bytes_eq_sound key (take (length key) name) hit)) in
      hit ∙ sym (ap (bytes_eq key) found ∙ bytes_eq_refl key)
  | inr miss ↦ elim (Bool-cases (memcmp_eq key (c_string name))) [
    | inr miss' ↦ miss ∙ sym miss'
    | inl hit ↦
        let found =
          prefix_back key name (sym (bytes_eq_sound key (take (length key) (c_string name)) hit)) in
        absurd (cc (sym miss ∙ ap (bytes_eq key) found ∙ bytes_eq_refl key))
  ]
]

find_entry-find_name :
    (name : List ℕ) (es : List Entry)
    → In (c_string name) g_permission_name
    → AllListed es
    → find_entry name es ≡ find_name (c_string name) es
unfolding find_entry find_name
find_entry-find_name name [] i all = refl
find_entry-find_name name ((k, v) ∷ es) i all =
    let j = all k v (inl refl) in
    let test : memcmp_eq (take perm_name_len k) name ≡ stands_for k (c_string name) =
      ap (λ x. memcmp_eq x name) (take_all perm_name_len k (listed_fits k j))
      ∙ memcmp_eq-string k name (listed_string k j)
      ∙ memcmp_eq-stands_for (c_string name) k i j in
    rw (test, find_entry-find_name name es i (λ k2 v2 i2. all k2 v2 (inr i2))) refl

module _ (u : Unqlite) (path_max : ℕ) (laws : CursorLaws u) where
  open u use {World, view}

  -- The entries decide by their whole keys, but for RECORD_AUDIO.
  abbrev pub FromNames : PermissionInfo → List Entry → PermError → PermissionInfo → Type 0
  FromNames info entries r info' =
      ◌≡◌ {A = PermError × PermissionInfo} (r, info')
        (decision info (find_name (c_string info.name) entries))

  -- On a package's file whose keys are all names of g_permission_name, for the uid of an
  -- application, a valid name, no callback, a path within PATH_MAX, memory at every allocation and
  -- more fuel than the file has entries: if check_permission can read the database, it answers as a
  -- search by whole names does, except that the first entry of RECORD or RECORD_AUDIO decides on
  -- RECORD_AUDIO.
  pub check_permission_by_name :
      (fuel : ℕ) (package_name : List ℕ) (info : PermissionInfo) (uid : ℤ) (es : List Entry)
      (w : World)
      → is_noerror (check_permission_valid info.name) ≡ true
      → is_system_uid uid ≡ false
      → length (package_path package_name) < path_max
      → (view w).files (package_path package_name) ≡ some es
      → AllListed es
      → length es < fuel
      → ((w' : World) → u.zalloc w' ≡ true)
      → Answers u
          (FromNames info es)
          info
          w
          (check_permission u path_max fuel none (some package_name) (some info) uid w)
  check_permission_by_name fuel package_name info uid es w valid app short file all enough memory =
      Answers-map u (FromFile u path_max info ((view w).files (package_path package_name)))
        (FromNames info es) info w _
        (λ r info' (entries, held, says).
          let one : entries ≡ es = cc in
          says
          ∙ ap (decision info) (
              ap (find_entry info.name) one
              ∙ find_entry-find_name info.name es (valid-In info.name valid) all))
        (check_permission_decides u path_max laws fuel package_name info uid w valid app short
          (λ es0 e. let same : es0 ≡ es = cc in rw same enough) memory)
