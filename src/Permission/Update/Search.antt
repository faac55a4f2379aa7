-- ===== src/Permission/Update/Search.antt =====
-- The search of check_permission in permission/perm_manager.c among the listed names.
use frameworks_security.Base.{
  ℕ, ◌≡◌, ◌≢◌, refl, sym, ap, ◌∙◌, ◌==◌, true, Bool-cases, inl, inr, none, some, List, [], ◌∷◌,
  length, take, take_all, c_string, bytes_eq_refl,
}
use frameworks_security.Permission.Types.{g_permission_name, perm_name_len}
use frameworks_security.Permission.Store.{Entry}
use frameworks_security.Permission.Access.{memcmp_eq}
use frameworks_security.Permission.Check.Lookup.{find_entry}
use frameworks_security.Permission.Update.Names.{In, record_audio, listed_fits, memcmp_eq-listed}
use frameworks_security.Permission.Update.Save.{AllListed}

take_string : (name : List ℕ) → take (length (c_string name)) name ≡ c_string name
unfolding c_string
take_string [] = refl
take_string (x ∷ name) = elim (Bool-cases (x == 0)) [
  | inl end ↦ rw end
  | inr byte ↦ rw byte (ap (x ∷◌) (take_string name))
]

matches_self :
    (name : List ℕ)
    → In (c_string name) g_permission_name
    → memcmp_eq (take perm_name_len (c_string name)) name ≡ true
matches_self name i =
    rw (take_all perm_name_len (c_string name) (listed_fits (c_string name) i), take_string name)
      (bytes_eq_refl (c_string name))

-- Among listed keys the search finds the entry of the name itself.
pub find_entry-Knows :
    (name v : List ℕ) (es : List Entry)
    → In (c_string name) g_permission_name
    → c_string name ≢ record_audio
    → AllListed es
    → In (c_string name, v) es
    → ((v' : List ℕ) → In (c_string name, v') es → v' ≡ v)
    → find_entry name es ≡ some (c_string name, v)
unfolding find_entry
find_entry-Knows name v [] i other all j alone = elim j [ ]
find_entry-Knows name v ((k, v') ∷ es) i other all j alone =
    elim (Bool-cases (memcmp_eq (take perm_name_len k) name)) [
      | inl hit ↦
          let key : k ≡ c_string name = memcmp_eq-listed name k i (all k v' (inl refl)) other hit in
          let value : v' ≡ v = alone v' (inl (ap (λ x. (x, v')) (sym key))) in rw hit (cc)
      | inr miss ↦ rw miss (
          find_entry-Knows name v es i other (λ k2 v2 i2. all k2 v2 (inr i2))
            (elim j [
              | inl here ↦
                  let k_eq : c_string name ≡ k = ap (λ (e : Entry). e.0) here in
                  absurd (
                    cc (
                      sym miss
                      ∙ ap (λ x. memcmp_eq (take perm_name_len x) name) (sym k_eq)
                      ∙ matches_self name i))
              | inr rest ↦ rest
            ])
            (λ v2 i2. alone v2 (inr i2)))
    ]

-- Among listed keys the search finds something where the name itself is a key.
pub find_entry-some :
    (name v : List ℕ) (es : List Entry)
    → In (c_string name) g_permission_name
    → In (c_string name, v) es
    → find_entry name es ≢ none
unfolding find_entry
find_entry-some name v [] i j none' = elim j [ ]
find_entry-some name v (e ∷ es) i j none' =
    elim (Bool-cases (memcmp_eq (take perm_name_len e.0) name)) [
      | inl hit ↦ absurd (cc (rw hit at none'))
      | inr miss ↦ elim j [
        | inl here ↦ absurd (
            cc (
              sym miss
              ∙ ap (λ (x : Entry). memcmp_eq (take perm_name_len x.0) name) (sym here)
              ∙ matches_self name i))
        | inr rest ↦ find_entry-some name v es i rest (rw miss at none')
      ]
    ]
