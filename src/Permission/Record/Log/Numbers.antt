-- ===== src/Permission/Record/Log/Numbers.antt =====
-- The number at the front of a line of the log file of permission/perm_manager.c: the digits
-- that `%lld` prints and `%llu` reads.
use frameworks_security.Base.{
  false, lt→ltb, ℕ, ◌+◌, ◌-◌, ◌%◌, ◌^◌, ◌≡◌, refl, ◌∙◌, ◌<◌, List, ◌∷◌, ◌++◌, ltb, le→leb, if_cases,
  ap, sym, some, arith,
}
use frameworks_security.Permission.Types.{is_space}
use frameworks_security.Permission.Record.Log.{
  dash, scan_digits, scan_signed, skip_spaces, scan_llu, scan_negative, scan_positive, saturate,
  print_lld,
}
use frameworks_security.Decimal.{is_digit, decimal-Starts, decimal, digits, digits-decimal}

digits-dash : (n : ℕ) (cs : List ℕ) → digits n (dash ∷ cs) ≡ (n, dash ∷ cs)
unfolding digits is_digit
digits-dash n cs = refl

scan_digits-first :
    (d : ℕ) (cs : List ℕ) → d < 10 → scan_digits ((48 + d) ∷ cs) ≡ some (digits 0 ((48 + d) ∷ cs))
unfolding scan_digits is_digit
scan_digits-first d cs h = rw (le→leb 48 (48 + d) (omega arith), le→leb (48 + d) 57 (omega arith))

scan_llu-first :
    (d : ℕ) (cs : List ℕ)
    → d < 10
    → scan_llu ((48 + d) ∷ cs) ≡ scan_positive (scan_digits ((48 + d) ∷ cs))
unfolding scan_llu skip_spaces scan_signed is_space
scan_llu-first d cs h = ground arith

scan_digits-decimal :
    (n : ℕ) (cs : List ℕ)
    → n < 10 ^ 20
    → scan_digits (decimal 20 n ++ dash ∷ cs) ≡ some (n, dash ∷ cs)
scan_digits-decimal n cs h =
    let (d, rest, small, e) = decimal-Starts 19 n in
    ap (λ ds. scan_digits (ds ++ dash ∷ cs)) e
    ∙ scan_digits-first d (rest ++ dash ∷ cs) small
    ∙ ap (λ ds. some (digits 0 (ds ++ dash ∷ cs))) (sym e)
    ∙ ap some (digits-decimal 20 n (dash ∷ cs) h ∙ digits-dash n cs)

below_20 : (n : ℕ) → n < 2 ^ 64 → n < 10 ^ 20
below_20 n h = omega arith

scan_positive-some :
    (n : ℕ) (cs : List ℕ) → n < 2 ^ 64 → scan_positive (some (n, cs)) ≡ some (n, cs)
unfolding scan_positive saturate
scan_positive-some n cs h = rw (lt→ltb n (2 ^ 64) h) refl

scan_llu-decimal :
    (n : ℕ) (cs : List ℕ) → n < 2 ^ 64 → scan_llu (decimal 20 n ++ dash ∷ cs) ≡ some (n, dash ∷ cs)
scan_llu-decimal n cs h =
    let (d, rest, small, e) = decimal-Starts 19 n in
    ap (λ ds. scan_llu (ds ++ dash ∷ cs)) e
    ∙ scan_llu-first d (rest ++ dash ∷ cs) small
    ∙ ap (λ ds. scan_positive (scan_digits (ds ++ dash ∷ cs))) (sym e)
    ∙ ap scan_positive (scan_digits-decimal n cs (below_20 n h))
    ∙ scan_positive-some n (dash ∷ cs) h

negative-back : (n : ℕ) → n < 2 ^ 64 → (2 ^ 64 - (2 ^ 64 - n)) % 2 ^ 64 ≡ n
negative-back n h = omega arith

rest_20 : (n : ℕ) → 2 ^ 64 - n < 10 ^ 20
rest_20 n = omega arith

scan_llu-dash : (cs : List ℕ) → scan_llu (dash ∷ cs) ≡ scan_negative (scan_digits cs)
unfolding scan_llu skip_spaces scan_signed is_space
scan_llu-dash cs = refl

scan_negative-some :
    (n : ℕ) (cs : List ℕ)
    → 0 < n
    → n < 2 ^ 64
    → scan_negative (some (2 ^ 64 - n, cs)) ≡ some (n, cs)
unfolding scan_negative saturate
scan_negative-some n cs positive h =
    rw (lt→ltb (2 ^ 64 - n) (2 ^ 64) (omega arith)) (ap (λ m. some (m, cs)) (negative-back n h))

high : (n : ℕ) → ltb n (2 ^ 63) ≡ false → 0 < n
high n e = ground (arith, e)

-- The time of a record that `%lld` printed before a '-' is what `%llu` reads, also for a time that
-- is printed as a negative number.
pub scan_llu-print_lld :
    (n : ℕ) (cs : List ℕ) → n < 2 ^ 64 → scan_llu (print_lld n ++ dash ∷ cs) ≡ some (n, dash ∷ cs)
unfolding print_lld
scan_llu-print_lld n cs h =
    if_cases (λ (ds : List ℕ). scan_llu (ds ++ dash ∷ cs) ≡ some (n, dash ∷ cs)) (ltb n (2 ^ 63))
      (λ _. scan_llu-decimal n cs h)
      (λ e.
        scan_llu-dash (decimal 20 (2 ^ 64 - n) ++ dash ∷ cs)
        ∙ ap scan_negative (scan_digits-decimal (2 ^ 64 - n) cs (rest_20 n))
        ∙ scan_negative-some n (dash ∷ cs) (high n e) h)
