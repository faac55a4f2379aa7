-- ===== src/Device/Info/Fuel.antt =====
-- The loop of is_key_exist of tools/set_model/set_model_api.c comes to the end of any file.
use frameworks_security.Base.{
  ℕ, zero, suc, ◌≡◌, refl, ◌∙◌, ◌≤◌, ◌<◌, ◌==◌, Option, none, some, List, [], ◌∷◌, length, if_cases,
  arith,
}
use frameworks_security.Device.Info.Lookup.{scan-step}
use frameworks_security.Device.Info.{newline, fgets, line_value, first, scan}

-- fgets takes a byte at least from a file that is not at its end.
fgets-shrinks : (n : ℕ) (bytes : List ℕ) → length (fgets n bytes).1 ≤ length bytes
unfolding fgets
fgets-shrinks zero bytes = omega arith
fgets-shrinks (suc n) [] = omega arith
fgets-shrinks (suc n) (x ∷ xs) =
    if_cases (λ (r : List ℕ × List ℕ). length r.1 ≤ suc (length xs)) (x == newline)
      (λ _. omega arith) (λ _. omega (arith, fgets-shrinks n xs))

pub fgets-takes : (n x : ℕ) (xs : List ℕ) → length (fgets (suc n) (x ∷ xs)).1 ≤ length xs
unfolding fgets
fgets-takes n x xs =
    if_cases (λ (r : List ℕ × List ℕ). length r.1 ≤ length xs) (x == newline) (λ _. omega arith)
      (λ _. fgets-shrinks n xs)

first-some :
    (o : Option (List ℕ)) (more : Option (List ℕ))
    → (r : Option (List ℕ)) × (first o (some more) ≡ some r)
first-some none more = (more, refl)
first-some (some v) more = (some v, refl)

below : (a b n : ℕ) → a ≤ b → suc b < suc n → a < n
below a b n h lt = omega arith

-- With more units of fuel than the file has bytes the loop of is_key_exist ends, whatever the file
-- holds.
pub scan_enough :
    (n : ℕ) (key bytes : List ℕ)
    → length bytes < n
    → (r : Option (List ℕ)) × (scan n key bytes ≡ some r)
scan_enough zero key bytes lt = absurd (omega arith)
scan_enough (suc n) key [] lt = (none, unfold scan in refl)
scan_enough (suc n) key (x ∷ xs) lt =
    let rest = (fgets 63 (x ∷ xs)).1 in
    let (more, e) =
      scan_enough n key rest (below (length rest) (length xs) n (fgets-takes 62 x xs) lt) in
    let (r, e2) = first-some (line_value key (fgets 63 (x ∷ xs)).0) more in
    (r, scan-step n key (x ∷ xs) (λ e. cc) ∙ rw e e2)
