-- ===== src/Client/Comsst/Fill.antt =====
-- What ca/comsst/comsst_ca_api.c makes of the scope, the name and the data in the shared memory.
use mathlib.Core.List.{append_assoc}
use frameworks_security.Base.{
  memcpy_all, memcpy_end, memcpy_out, ℕ, suc, ◌+◌, ◌≡◌, refl, ◌∙◌, ◌≤◌, ◌<◌, Bool, none, some, List,
  [], ◌∷◌, ◌++◌, length, take, drop, take-append, leb→le, length-append, length-drop, strcpy,
  strcat, c_string, arith, ◌==◌, Bool-cases, ap, leb, inl, inr,
}
use frameworks_security.Client.Comsst.{
  and_name, fullname_len, name_only, name_and_data, item_params,
}

-- The string in front of a zero that was put behind it.
c_string-put : (x rest : List ℕ) → c_string (c_string x ++ (0 ∷ rest)) ≡ c_string x
unfolding c_string
c_string-put [] rest = refl
c_string-put (x ∷ xs) rest = elim (Bool-cases (x == 0)) [
  | inl zero_byte ↦ rw zero_byte refl
  | inr byte ↦ rw (byte, c_string, byte) (ap (◌∷◌ x) (c_string-put xs rest))
]

module _ (scope name : List ℕ) where
  abbrev pub full_name : List ℕ
  full_name = c_string scope ++ c_string name

  pub fullname_len-eq : length full_name ≤ 30 → fullname_len scope name ≡ length full_name
  unfolding fullname_len
  fullname_len-eq short = omega (arith, short, length-append (c_string scope) (c_string name))

  strcpy-eq :
      (shm : List ℕ)
      → length (c_string scope) + 1 ≤ length shm
      → (rest : List ℕ) × (strcpy shm scope ≡ some (c_string scope ++ (0 ∷ rest)))
        × (length (c_string scope) + 1 + length rest ≡ length shm)
  unfolding strcpy
  strcpy-eq shm fits =
      let n = length-append (c_string scope) (0 ∷ []) in
      let used = length (c_string scope ++ (0 ∷ [])) in
      (
        drop (0 + used) shm,
        rw (← n) (memcpy_all 0 (c_string scope ++ (0 ∷ [])) shm (omega (arith, fits, n)))
            ∙ ap some (append_assoc (c_string scope) (0 ∷ []) (drop (0 + used) shm)),
        omega (arith, fits, n, length-drop (0 + used) shm),
      )

  -- The full name is in the memory, with a zero behind it.
  pub full_name-named :
      (shm : List ℕ)
      → length full_name < length shm
      → (rest : List ℕ) × (and_name name (strcpy shm scope) ≡ some (full_name ++ (0 ∷ rest)))
        × (length full_name + suc (length rest) ≡ length shm)
  unfolding strcat
  full_name-named shm fits =
      let f = length-append (c_string scope) (c_string name) in
      let (rest, e, sized) = strcpy-eq shm (omega (arith, fits, f)) in
      let m = c_string scope ++ (0 ∷ rest) in
      let ml = length-append (c_string scope) (0 ∷ rest) in
      let n = length-append (c_string name) (0 ∷ []) in
      let used = length (c_string scope) + length (c_string name ++ (0 ∷ [])) in
      let copied =
        memcpy_all (length (c_string scope)) (c_string name ++ (0 ∷ [])) m
          (omega (arith, fits, f, sized, ml, n)) in
      (
        drop used m,
        rw (e, c_string-put scope rest, ← n)
            (copied
              ∙ rw (
                take-append (c_string scope) (0 ∷ rest),
                append_assoc (c_string name) (0 ∷ []) (drop used m),
                append_assoc (c_string scope) (c_string name),
              )),
        omega (arith, fits, f, sized, ml, n, length-drop used m),
      )

  -- Without room for the zero it is written outside the memory.
  pub full_name_overrun :
      (shm : List ℕ) → length shm ≡ length full_name → and_name name (strcpy shm scope) ≡ none
  unfolding strcpy strcat
  full_name_overrun shm sized =
      let f = length-append (c_string scope) (c_string name) in
      elim (Bool-cases (leb (length (c_string scope) + 1) (length shm))) [
        | inr short ↦
            rw
              (memcpy_out 0 (length (c_string scope) + 1) (c_string scope ++ (0 ∷ [])) shm
                (ground (arith, short)))
              refl
        | inl room ↦
            let (rest, e, all) = strcpy-eq shm (leb→le _ _ room) in
            rw (e, strcat, c_string-put scope rest)
              (memcpy_out (length (c_string scope)) (length (c_string name) + 1)
                (c_string name ++ (0 ∷ [])) (c_string scope ++ (0 ∷ rest))
                (omega (arith, f, all, sized, length-append (c_string scope) (0 ∷ rest))))
      ]

  module _ (d : Bool) (short : length full_name ≤ 30) where
    pub name_only-filled :
        (shm : List ℕ)
        → length full_name < length shm
        → (rest : List ℕ) × (name_only scope name d shm
            ≡ some (item_params (length full_name) d (full_name ++ rest)))
          × (length full_name + length rest ≡ length shm)
    unfolding name_only
    name_only-filled shm fits =
        let (rest, e, sized) = full_name-named shm fits in
        (0 ∷ rest, rw (e, fullname_len-eq short), sized)

    pub name_only_overrun :
        (shm : List ℕ) → length shm ≡ length full_name → name_only scope name d shm ≡ none
    unfolding name_only
    name_only_overrun shm sized = rw (full_name_overrun shm sized)

    pub name_and_data-filled :
        (buff shm : List ℕ) (len : ℕ)
        → length shm ≡ len + length full_name
        → 0 < len
        → len ≤ length buff
        → name_and_data scope name d buff len shm
          ≡ some (item_params (length full_name) d (full_name ++ take len buff))
    unfolding name_and_data
    name_and_data-filled buff shm len sized some_data fits =
        let (rest, e, all) = full_name-named shm (omega (arith, sized, some_data)) in
        rw (
          e,
          fullname_len-eq short,
          memcpy_end (length full_name) len buff (full_name ++ (0 ∷ rest))
              (omega (arith, all, sized, length-append full_name (0 ∷ rest))) fits,
          take-append full_name (0 ∷ rest),
        )

    pub name_and_data_overrun :
        (buff shm : List ℕ) (len : ℕ)
        → length shm ≡ length full_name
        → name_and_data scope name d buff len shm ≡ none
    unfolding name_and_data
    name_and_data_overrun buff shm len sized = rw (full_name_overrun shm sized)
