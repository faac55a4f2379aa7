-- ===== src/Permission/Record/Log/Zeros.antt =====
-- The arrays of zeros into which permission/perm_manager.c copies a record's names.
use frameworks_security.Base.{
  drop-zeros, c_string-zeros, ℕ, zero, suc, ◌+◌, ◌≡◌, refl, ap, ◌∙◌, ◌≤◌, some, List, [], ◌∷◌, ◌++◌,
  length, take, replicate, length-append, length-replicate, c_string, c_string-all, Lacks, strcpy,
  memcpy_all, arith,
}
use native.Mathlib.Nat.{zero-add}
use mathlib.Core.List.{append_assoc}
use frameworks_security.Permission.Types.{strncpy}

unfoldable pub zeros : ℕ → List ℕ
zeros n = replicate n 0

take-replicate : (n k : ℕ) → n ≤ k → take n (zeros k) ≡ zeros n
unfolding zeros
take-replicate zero k h = refl
take-replicate (suc n) zero h = absurd (omega arith)
take-replicate (suc n) (suc k) h = ap (0 ∷◌) (take-replicate n k (omega arith))

take-zeros :
    (n k j : ℕ) (s : List ℕ) → n ≡ length s + j → j ≤ k → take n (s ++ zeros k) ≡ s ++ zeros j
unfolding zeros
take-zeros n k j [] e h = rw (e, zero-add) (take-replicate j k h)
take-zeros zero k j (x ∷ s) e h = absurd (omega (arith, e))
take-zeros (suc n) k j (x ∷ s) e h = ap (x ∷◌) (take-zeros n k j s (omega (arith, e)) h)

-- What strncpy leaves in an array of `n` bytes that has `k` more than the text.
pub strncpy-zeros :
    (n k : ℕ) (s : List ℕ) → Lacks 0 s → n ≡ length s + k → strncpy n s ≡ s ++ zeros k
unfolding strncpy zeros
strncpy-zeros n k s h e = rw (c_string-all s h) (take-zeros n n k s e (omega (arith, e)))

-- strcpy into an array of zeros.
pub strcpy-zeros :
    (n k : ℕ) (s : List ℕ)
    → Lacks 0 s
    → n ≡ length s + suc k
    → strcpy (zeros n) s ≡ some (s ++ zeros (suc k))
unfolding strcpy zeros
strcpy-zeros n k s h e =
    let size : length (s ++ 0 ∷ []) ≡ length s + 1 = length-append s (0 ∷ []) in
    let whole : length (zeros n) ≡ n = length-replicate n 0 in
    rw (c_string-all s h, ← size)
      (memcpy_all 0 (s ++ 0 ∷ []) (zeros n) (omega (arith, size, whole, e))
        ∙ ap (λ (t : List ℕ). some ((s ++ 0 ∷ []) ++ t))
            (drop-zeros (0 + length (s ++ 0 ∷ [])) n k (omega (arith, size, e)))
        ∙ ap some (append_assoc s (0 ∷ []) (zeros k)))

-- A text that strncpy put into an array is the string of it.
pub kept :
    (n k : ℕ) (s : List ℕ) → Lacks 0 s → n ≡ length s + k → c_string (take n (strncpy n s)) ≡ s
unfolding zeros
kept n k s h e =
    ap (λ t. c_string (take n t)) (strncpy-zeros n k s h e)
    ∙ ap c_string (take-zeros n k k s e (omega arith))
    ∙ c_string-zeros s k h
