-- ===== src/Decimal.antt =====
-- Decimal digits, as the formats `%d`, `%lld` and `%llu` of printf and scanf and the functions atoi
-- and strtoull of the C library have them.
use frameworks_security.Base.{
  Lacks, Lacks-append, Bool, ◌&&◌, leb, length, ◌≤◌, length-append, refl, ◌∙◌, ℕ, zero, suc, ◌+◌,
  ◌-◌, ◌*◌, ◌/◌, ◌%◌, ◌^◌, ◌≡◌, ◌∙◌, ◌<◌, List, [], ◌∷◌, ◌++◌, ltb, le→leb, ltb→lt, if_cases, ap,
  arith, if◌then◌else◌,
}
use native.Mathlib.Numerals.{unary_clauses}
use mathlib.Core.List.{append_assoc}

unfoldable pub is_digit : ℕ → Bool
is_digit c = leb b'0' c && leb c b'9'

-- The decimal digits of a number of at most as many digits as the fuel.
unfoldable pub decimal : ℕ → ℕ → List ℕ
decimal zero n = []
decimal (suc k) n =
    let rest = decimal k (n / 10) in if ltb n 10 then (48 + n) ∷ [] else rest ++ (48 + n % 10) ∷ []

-- The number that the digits at the front spell, and the text behind them.
unfoldable pub digits : ℕ → List ℕ → ℕ × List ℕ
unfolding is_digit
digits n [] = (n, [])
digits n (c ∷ cs) =
    let rest = digits (n * 10 + (c - 48)) cs in if is_digit c then rest else (n, c ∷ cs)

digits_one : (a d : ℕ) (cs : List ℕ) → d < 10 → digits a ((48 + d) ∷ cs) ≡ digits (a * 10 + d) cs
unfolding digits is_digit
digits_one a d cs h =
    let back : (48 + d) - 48 ≡ d = omega arith in
    rw (le→leb 48 (48 + d) (omega arith), le→leb (48 + d) 57 (omega arith), back)

tenth : (p n : ℕ) → n < p * 10 → n / 10 < p
tenth p n h = omega arith

tens : (n : ℕ) → n / 10 * 10 + n % 10 ≡ n
tens n = omega arith

pub ones : (n : ℕ) → n % 10 < 10
ones n = omega arith

start : (n : ℕ) → 0 * 10 + n ≡ n
start n = omega arith

none_left : (n : ℕ) → n < 1 → 0 ≡ n
none_left n h = omega arith

-- The digits of a number spell it.
pub digits-decimal :
    (k n : ℕ) (cs : List ℕ) → n < 10 ^ k → digits 0 (decimal k n ++ cs) ≡ digits n cs
unfolding decimal
digits-decimal zero n cs h = ap (λ a. digits a cs) (none_left n h)
digits-decimal (suc k) n cs h =
    if_cases (λ (ds : List ℕ). digits 0 (ds ++ cs) ≡ digits n cs) (ltb n 10)
      (λ e. digits_one 0 n cs (ltb→lt n 10 e) ∙ ap (λ a. digits a cs) (start n))
      (λ e.
        ap (digits 0) (append_assoc (decimal k (n / 10)) ((48 + n % 10) ∷ []) cs)
        ∙ digits-decimal k (n / 10) ((48 + n % 10) ∷ cs)
            (tenth (10 ^ k) n (simp unary_clauses at h))
        ∙ digits_one (n / 10) (n % 10) cs (ones n)
        ∙ ap (λ a. digits a cs) (tens n))

-- The first digit of a number.
abbrev pub Starts : List ℕ → Type 0
Starts ds = (d : ℕ) × (rest : List ℕ) × (d < 10) × (ds ≡ (48 + d) ∷ rest)

pub decimal-Starts : (k n : ℕ) → Starts (decimal (suc k) n)
unfolding decimal
decimal-Starts zero n =
    if_cases Starts (ltb n 10) (λ e. (n, [], ltb→lt n 10 e, refl)) (λ _. (n % 10, [], ones n, refl))
decimal-Starts (suc k) n =
    if_cases Starts (ltb n 10) (λ e. (n, [], ltb→lt n 10 e, refl))
      (λ _.
        let (d, rest, small, e) = decimal-Starts k (n / 10) in
        (d, rest ++ (48 + n % 10) ∷ [], small, ap (λ ds. ds ++ (48 + n % 10) ∷ []) e))

pub length-decimal : (k n : ℕ) → length (decimal k n) ≤ k
unfolding decimal
length-decimal zero n = omega arith
length-decimal (suc k) n =
    if_cases (λ (ds : List ℕ). length ds ≤ suc k) (ltb n 10) (λ _. omega arith)
      (λ _.
        omega (
          arith,
          length-append (decimal k (n / 10)) ((48 + n % 10) ∷ []),
          length-decimal k (n / 10),
        ))

pub decimal-Lacks : (b k n : ℕ) → b < 48 → Lacks b (decimal k n)
unfolding decimal
decimal-Lacks b zero n h = tt
decimal-Lacks b (suc k) n h =
    if_cases (Lacks b) (ltb n 10) (λ _. ((λ e. absurd (omega (arith, e))), tt))
      (λ _.
        Lacks-append b (decimal k (n / 10)) ((48 + n % 10) ∷ []) (decimal-Lacks b k (n / 10) h)
          ((λ e. absurd (omega (arith, e))), tt))
