-- ===== src/Permission/Record/Log/Lines.antt =====
-- One line of the log file of permission/perm_manager.c, as snprintf writes it and sscanf reads it.
use frameworks_security.Base.{
  c_string-zeros, ℕ, suc, ◌+◌, ◌-◌, ◌^◌, ◌≡◌, refl, sym, ap, ◌∙◌, ◌≢◌, ◌≤◌, ◌<◌, ◌==◌, false, ltb,
  if_cases, some, List, [], ◌∷◌, ◌++◌, length, take, drop, length-append, take_all, take-append,
  drop-append, c_string, c_string-all, Lacks, Lacks-append, strcpy, arith,
}
use mathlib.Core.Path.{ap₂}
use mathlib.Core.List.{append_assoc}
use frameworks_security.Device.Info.{before, newline}
use frameworks_security.Device.Info.Lookup.{before-at}
use frameworks_security.Permission.Types.{strncpy, pkg_name_len, perm_name_len}
use frameworks_security.Permission.Record.{PermissionRecord}
use frameworks_security.Permission.Record.Log.{
  dash, print_lld, record_message, read_line, with_names, scan_llu, read_record, read_names,
  read_permname, cut_last, cut_some,
}
use frameworks_security.Decimal.{decimal-Lacks, length-decimal}
use frameworks_security.Permission.Record.Log.Zeros.{zeros, strncpy-zeros, strcpy-zeros, kept}
use frameworks_security.Permission.Record.Log.Numbers.{scan_llu-print_lld}

-- The names of a record that its line has room for and keeps apart.
abbrev pub Loggable : List ℕ → List ℕ → Type 0
Loggable p m =
    (p ≢ [])
    × Lacks 0 p
    × Lacks dash p
    × Lacks newline p
    × (length p < pkg_name_len)
    × Lacks 0 m
    × Lacks newline m
    × (length m + 1 < perm_name_len)

-- The record that record_permission_event makes of two names at a time.
abbrev pub entry : List ℕ → List ℕ → ℕ → PermissionRecord
entry p m n = record {
  pkgname = strncpy pkg_name_len p;
  permname = strncpy perm_name_len m;
  recordtime = n;
}

print_lld-Lacks : (b n : ℕ) → b < 45 → Lacks b (print_lld n)
unfolding print_lld
print_lld-Lacks b n h =
    if_cases (Lacks b) (ltb n (2 ^ 63)) (λ _. decimal-Lacks b 20 n (omega arith))
      (λ _. ((λ e. absurd (omega (arith, e))), decimal-Lacks b 20 (2 ^ 64 - n) (omega arith)))

pub length-print_lld : (n : ℕ) → length (print_lld n) ≤ 21
unfolding print_lld
length-print_lld n =
    if_cases (λ (ds : List ℕ). length ds ≤ 21) (ltb n (2 ^ 63))
      (λ _. omega (arith, length-decimal 20 n)) (λ _. omega (arith, length-decimal 20 (2 ^ 64 - n)))

-- The line without its newline.
abbrev pub body : List ℕ → List ℕ → ℕ → List ℕ
body p m n = print_lld n ++ (dash ∷ (p ++ (dash ∷ m)))

body-newline :
    (p m : List ℕ) (n : ℕ)
    → body p m n ++ newline ∷ [] ≡ print_lld n ++ (dash ∷ (p ++ (dash ∷ (m ++ newline ∷ []))))
body-newline p m n =
    append_assoc (print_lld n) (dash ∷ (p ++ (dash ∷ m))) (newline ∷ [])
    ∙ ap (λ t. print_lld n ++ (dash ∷ t)) (append_assoc p (dash ∷ m) (newline ∷ []))

pub body-Lacks :
    (b : ℕ) (p m : List ℕ) (n : ℕ) → b < 45 → Lacks b p → Lacks b m → Lacks b (body p m n)
body-Lacks b p m n h hp hm =
    Lacks-append b (print_lld n) (dash ∷ (p ++ (dash ∷ m))) (print_lld-Lacks b n h) (
      (λ e. absurd (omega (arith, e))),
      Lacks-append b p (dash ∷ m) hp ((λ e. absurd (omega (arith, e))), hm),
    )

pub length-body : (p m : List ℕ) (n : ℕ) → length (body p m n) ≤ 23 + length p + length m
length-body p m n = omega (
  arith,
  length-print_lld n,
  length-append (print_lld n) (dash ∷ (p ++ (dash ∷ m))),
  length-append p (dash ∷ m),
)

record_message-parts :
    (log_len : ℕ) (r : PermissionRecord) (p m : List ℕ)
    → c_string (take pkg_name_len r.pkgname) ≡ p
    → c_string (take perm_name_len r.permname) ≡ m
    → record_message log_len r
      ≡ take (log_len - 1) (print_lld r.recordtime ++ (dash ∷ (p ++ (dash ∷ (m ++ newline ∷ [])))))
unfolding record_message
record_message-parts log_len r p m ep em =
    ap₂
      (λ (s t : List ℕ).
        take (log_len - 1) (print_lld r.recordtime ++ (dash ∷ (s ++ (dash ∷ (t ++ newline ∷ []))))))
      ep em

-- What snprintf writes for a record, where the line has room.
pub record_message-body :
    (log_len : ℕ) (p m : List ℕ) (n : ℕ)
    → Loggable p m
    → length p + length m + 24 < log_len
    → record_message log_len (entry p m n) ≡ body p m n ++ newline ∷ []
record_message-body log_len p m n (some_name, p0, pd, pn, short, m0, mn, fits) room =
    record_message-parts log_len (entry p m n) p m
      (kept pkg_name_len (64 - length p) p p0 (omega arith))
      (kept perm_name_len (36 - length m) m m0 (omega arith))
    ∙ ap (take (log_len - 1)) (sym (body-newline p m n))
    ∙ take_all (log_len - 1) (body p m n ++ newline ∷ [])
        (omega (arith, length-append (body p m n) (newline ∷ []), length-body p m n))

cut_last-parts :
    (name : List ℕ) (j : ℕ)
    → length (c_string name) ≡ suc j
    → cut_last name ≡ some (take j name ++ 0 ∷ drop (suc j) name)
unfolding cut_last
cut_last-parts name j e =
    let other : (suc j == 0) ≡ false = ground arith in
    let less : suc j - 1 ≡ j = omega arith in rw (e, other, less)

-- The newline is taken off again.
cut_last-newline :
    (m : List ℕ) (k : ℕ)
    → Lacks 0 m
    → cut_last ((m ++ newline ∷ []) ++ zeros k) ≡ some (m ++ zeros (suc k))
unfolding zeros
cut_last-newline m k h =
    let line = m ++ newline ∷ [] in
    let size : length line ≡ suc (length m) = omega (arith, length-append m (newline ∷ [])) in
    let lacks = Lacks-append 0 m (newline ∷ []) h ((λ e. absurd (omega (arith, e))), tt) in
    cut_last-parts (line ++ zeros k) (length m) (ap length (c_string-zeros line k lacks) ∙ size)
    ∙ ap (λ (t : List ℕ). some (t ++ 0 ∷ drop (suc (length m)) (line ++ zeros k)))
        (ap (take (length m)) (append_assoc m (newline ∷ []) (zeros k))
          ∙ take-append m (newline ∷ zeros k))
    ∙ ap (λ (t : List ℕ). some (m ++ 0 ∷ t))
        (ap (λ (i : ℕ). drop i (line ++ zeros k)) (sym size) ∙ drop-append line (zeros k))

-- The name of the permission, with the newline behind it.
read_permname-newline :
    (m : List ℕ)
    → Lacks 0 m
    → length m + 1 < perm_name_len
    → read_permname (dash ∷ (m ++ newline ∷ [])) ≡ some (strncpy perm_name_len m)
unfolding read_permname zeros
read_permname-newline m m0 fits =
    let k : ℕ = 34 - length m in
    let size : length (m ++ newline ∷ []) ≡ length m + 1 = length-append m (newline ∷ []) in
    ap cut_some (
      strcpy-zeros perm_name_len k (m ++ newline ∷ [])
        (Lacks-append 0 m (newline ∷ []) m0 ((λ e. absurd (omega (arith, e))), tt))
        (omega (arith, size)))
    ∙ cut_last-newline m (suc k) m0
    ∙ ap some (sym (strncpy-zeros perm_name_len (suc (suc k)) m m0 (omega arith)))

read_names-parts :
    (n c : ℕ) (cs name : List ℕ)
    → c ≢ dash
    → before dash (c ∷ cs) ≡ name
    → read_names n (c ∷ cs)
      ≡ with_names n
          (strcpy (zeros pkg_name_len) name)
          (read_permname (drop (length name) (c ∷ cs)))
unfolding read_names zeros
read_names-parts n c cs name ne e =
    let other : (c == dash) ≡ false = ground arith in
    rw other (
      ap
        (λ (t : List ℕ).
          with_names n (strcpy (zeros pkg_name_len) t) (read_permname (drop (length t) (c ∷ cs))))
        (unfold before in rw other at e))

-- Both names, behind the time.
read_names-entry :
    (p m : List ℕ) (n : ℕ)
    → Loggable p m
    → read_names n (p ++ (dash ∷ (m ++ newline ∷ []))) ≡ some (some (entry p m n))
unfolding with_names
read_names-entry [] m n (some_name, p0, pd, pn, short, m0, mn, fits) = absurd (some_name refl)
read_names-entry (c ∷ p) m n (some_name, p0, (ne, pd), pn, short, m0, mn, fits) =
    let k : ℕ = 62 - length p in
    read_names-parts n c (p ++ (dash ∷ (m ++ newline ∷ []))) (c ∷ p) ne
      (before-at dash (c ∷ p) (m ++ newline ∷ []) (ne, pd))
    ∙ ap₂ (with_names n)
        (strcpy-zeros pkg_name_len k (c ∷ p) p0 (omega arith)
          ∙ ap some (sym (strncpy-zeros pkg_name_len (suc k) (c ∷ p) p0 (omega arith))))
        (ap read_permname (drop-append (c ∷ p) (dash ∷ (m ++ newline ∷ [])))
          ∙ read_permname-newline m m0 fits)

-- What snprintf writes for a record, sscanf reads as the same record.
pub read_line-entry :
    (p m : List ℕ) (n : ℕ)
    → Loggable p m
    → n < 2 ^ 64
    → read_line (body p m n ++ newline ∷ []) ≡ some (some (entry p m n))
unfolding read_line
read_line-entry p m n (some_name, p0, pd, pn, short, m0, mn, fits) small =
    let lacks =
      Lacks-append 0 (body p m n) (newline ∷ []) (body-Lacks 0 p m n (omega arith) p0 m0)
        ((λ e. absurd (omega (arith, e))), tt) in
    ap (λ t. read_record (scan_llu t)) (c_string-all _ lacks ∙ body-newline p m n)
    ∙ ap read_record (scan_llu-print_lld n (p ++ (dash ∷ (m ++ newline ∷ []))) small)
    ∙ unfold read_record in read_names-entry p m n (some_name, p0, pd, pn, short, m0, mn, fits)
