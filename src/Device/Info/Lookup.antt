-- ===== src/Device/Info/Lookup.antt =====
-- is_key_exist of tools/set_model/set_model_api.c on a file of the lines that device_info_set writes.
use mathlib.Core.List.{append_assoc}
use frameworks_security.Base.{
  Bool, ℕ, zero, suc, ◌+◌, ◌-◌, ◌≡◌, refl, ◌∙◌, sym, ap, ◌≢◌, ◌<◌, ◌==◌, true, false, Option, none,
  some, List, [], ◌∷◌, ◌++◌, length, take-append, length-append, bytes_eq, if◌then◌else◌, Lacks,
  Lacks-append, c_string-all, arith,
}
use frameworks_security.Device.Info.{
  newline, quote, equals, fgets, before, behind, skip, token, strtok, ends_with, starts_with,
  unquote, read_value, value_if, line_value, first, scan, printed,
}

pub fgets-line :
    (n : ℕ) (body rest : List ℕ)
    → Lacks newline body
    → length body < n
    → fgets n (body ++ (newline ∷ rest)) ≡ (body ++ (newline ∷ []), rest)
unfolding fgets
fgets-line zero body rest h lt = absurd (omega arith)
fgets-line (suc n) [] rest h lt = refl
fgets-line (suc n) (x ∷ xs) rest (ne, h) lt =
    let other : (x == newline) ≡ false = ground arith in
    rw (fgets, other, fgets-line n xs rest h (omega arith))

pub before-at :
    (stop : ℕ) (xs rest : List ℕ) → Lacks stop xs → before stop (xs ++ (stop ∷ rest)) ≡ xs
unfolding before
before-at stop [] rest h = ground arith
before-at stop (x ∷ xs) rest (ne, h) =
    let other : (x == stop) ≡ false = ground arith in rw (other, before-at stop xs rest h)

behind-at : (stop : ℕ) (xs rest : List ℕ) → Lacks stop xs → behind stop (xs ++ (stop ∷ rest)) ≡ rest
unfolding behind
behind-at stop [] rest h = ground arith
behind-at stop (x ∷ xs) rest (ne, h) =
    let other : (x == stop) ≡ false = ground arith in rw (other, behind-at stop xs rest h)

before-all : (stop : ℕ) (xs : List ℕ) → Lacks stop xs → before stop xs ≡ xs
unfolding before
before-all stop [] h = refl
before-all stop (x ∷ xs) (ne, h) =
    let other : (x == stop) ≡ false = ground arith in rw (other, before-all stop xs h)

ends_with-last : (b : ℕ) (xs : List ℕ) → ends_with b (xs ++ (b ∷ [])) ≡ true
unfolding ends_with
ends_with-last b [] = ground arith
ends_with-last b (x ∷ []) = ground arith
ends_with-last b (x ∷ (y ∷ ys)) = ends_with-last b (y ∷ ys)

-- The quotes that are printed are taken off again.
unquote-quoted : (v : List ℕ) → unquote (quote ∷ (v ++ (quote ∷ []))) ≡ v
unfolding unquote starts_with
unquote-quoted v =
    let size : length (v ++ (quote ∷ [])) ≡ length v + 1 = length-append v (quote ∷ []) in
    let two : suc (length (v ++ (quote ∷ []))) - 2 ≡ length v = omega (arith, size) in
    rw (ends_with-last quote (quote ∷ v), two, take-append v (quote ∷ []))

-- A key and a value that one line of 63 bytes holds.
abbrev pub Fits : List ℕ → List ℕ → Type 0
Fits key value =
    (key ≢ [])
    × Lacks 0 key
    × Lacks equals key
    × Lacks newline key
    × Lacks 0 value
    × Lacks newline value
    × (length key + length value + 4 < 64)

abbrev quoted : List ℕ → List ℕ
quoted value = quote ∷ (value ++ (quote ∷ []))

abbrev body : List ℕ → List ℕ → List ℕ
body key value = key ++ (equals ∷ quoted value)

printed-body :
    (key value rest : List ℕ) → printed key value ++ rest ≡ body key value ++ (newline ∷ rest)
unfolding printed
printed-body key value rest = rw (
  append_assoc key (equals ∷ (quote ∷ (value ++ (quote ∷ (newline ∷ []))))) rest,
  append_assoc value (quote ∷ (newline ∷ [])) rest,
  append_assoc key (equals ∷ quoted value) (newline ∷ rest),
  append_assoc value (quote ∷ []) (newline ∷ rest),
)

quoted-Lacks : (b : ℕ) (value : List ℕ) → quote ≢ b → Lacks b value → Lacks b (quoted value)
quoted-Lacks b value ne h = (ne, Lacks-append b value (quote ∷ []) h (ne, tt))

body-Lacks :
    (b : ℕ) (key value : List ℕ)
    → equals ≢ b
    → quote ≢ b
    → Lacks b key
    → Lacks b value
    → Lacks b (body key value)
body-Lacks b key value ne ne2 h k =
    Lacks-append b key (equals ∷ quoted value) h (ne, quoted-Lacks b value ne2 k)

length-body : (key value : List ℕ) → length (body key value) ≡ length key + length value + 3
length-body key value =
    omega (arith, length-append key (equals ∷ quoted value), length-append value (quote ∷ []))

strtok-body :
    (key value : List ℕ)
    → key ≢ []
    → Lacks equals key
    → strtok equals (body key value) ≡ some (key, quoted value)
unfolding strtok skip token
strtok-body [] value some_key h = absurd (some_key refl)
strtok-body (x ∷ xs) value some_key h =
    let other : (x == equals) ≡ false = ground (arith, h.0) in
    rw (
      other,
      before-at equals (x ∷ xs) (quoted value) h,
      behind-at equals (x ∷ xs) (quoted value) h,
    )

strtok-quoted :
    (value : List ℕ)
    → Lacks newline value
    → strtok newline (quoted value) ≡ some (quoted value, behind newline (quoted value))
unfolding strtok skip token
strtok-quoted value h =
    rw (before-all newline (quoted value) (quoted-Lacks newline value (λ e. ground arith) h))

read_value-cons :
    (value : List ℕ) (v rest : List ℕ)
    → strtok newline value ≡ some (v, rest)
    → read_value value ≡ some (unquote v)
unfolding read_value unquote
read_value-cons value v rest e = rw (read_value, e) refl

read_value-quoted : (value : List ℕ) → Lacks newline value → read_value (quoted value) ≡ some value
read_value-quoted value h =
    read_value-cons (quoted value) (quoted value) (behind newline (quoted value))
      (strtok-quoted value h)
    ∙ ap some (unquote-quoted value)

line_value-printed :
    (wanted key value : List ℕ)
    → Fits key value
    → line_value wanted (body key value ++ (newline ∷ []))
      ≡ (if bytes_eq key wanted then some value else none)
unfolding line_value value_if
line_value-printed wanted key value
      (some_key, zero_key, equals_key, line_key, zero_value, line_value', _) =
    rw (
      c_string-all (body key value ++ (newline ∷ [])) (
          Lacks-append 0 (body key value) (newline ∷ [])
            (body-Lacks 0 key value (λ e. ground arith) (λ e. ground arith) zero_key zero_value)
            ((λ e. ground arith), tt)),
      before-at newline (body key value) [] (
          body-Lacks newline key value (λ e. ground arith) (λ e. ground arith) line_key
            line_value'),
      strtok-body key value some_key equals_key,
      read_value-quoted value line_value',
    )

-- The file of a list of entries, and the value of a key in it.
abbrev pub file_of : List (List ℕ × List ℕ) → List ℕ
file_of [] = []
file_of ((key, value) ∷ rest) = printed key value ++ file_of rest

abbrev pub lookup : List ℕ → List (List ℕ × List ℕ) → Option (List ℕ)
lookup wanted [] = none
lookup wanted ((key, value) ∷ rest) =
    let more = lookup wanted rest in if bytes_eq key wanted then some value else more

abbrev pub AllFit : List (List ℕ × List ℕ) → Type 0
AllFit [] = Unit
AllFit ((key, value) ∷ rest) = Fits key value × AllFit rest

-- `break` where the entry has the key.
first-if :
    (b : Bool) (value : List ℕ) (more : Option (List ℕ))
    → first (if b then some value else none) (some more) ≡ some (if b then some value else more)
first-if true value more = refl
first-if false value more = refl

pub scan-step :
    (n : ℕ) (wanted bytes : List ℕ)
    → bytes ≢ []
    → scan (suc n) wanted bytes
      ≡ first (line_value wanted (fgets 63 bytes).0) (scan n wanted (fgets 63 bytes).1)
unfolding scan
scan-step n wanted [] some_bytes = absurd (some_bytes refl)
scan-step n wanted (x ∷ xs) some_bytes = refl

printed-ne : (key value rest : List ℕ) → printed key value ++ rest ≢ []
printed-ne key value rest e =
    let none_left : length (body key value ++ (newline ∷ rest)) ≡ 0 =
      ap length (sym (printed-body key value rest) ∙ e) in
    absurd (omega (arith, none_left, length-append (body key value) (newline ∷ rest)))

pub scan-lookup :
    (n : ℕ) (wanted : List ℕ) (entries : List (List ℕ × List ℕ))
    → AllFit entries
    → length entries < n
    → scan n wanted (file_of entries) ≡ some (lookup wanted entries)
scan-lookup zero wanted entries fit lt = absurd (omega arith)
scan-lookup (suc n) wanted [] fit lt = unfold scan in refl
scan-lookup (suc n) wanted ((key, value) ∷ rest) (fits, fit) lt =
    let line : fgets 63 (printed key value ++ file_of rest)
        ≡ (body key value ++ (newline ∷ []), file_of rest) =
      rw (printed-body key value (file_of rest)) (
        fgets-line 63 (body key value) (file_of rest)
          (body-Lacks newline key value (λ e. ground arith) (λ e. ground arith) fits.3 fits.5)
          (omega (arith, length-body key value, fits.6))) in
    scan-step n wanted (printed key value ++ file_of rest) (printed-ne key value (file_of rest))
    ∙ rw
        (
          line,
          line_value-printed wanted key value fits,
          scan-lookup n wanted rest fit (omega arith),
        )
        (first-if (bytes_eq key wanted) value (lookup wanted rest))

pub length-printed : (key value : List ℕ) → 0 < length (printed key value)
unfolding printed
length-printed key value =
    omega (arith, length-append key (equals ∷ (quote ∷ (value ++ (quote ∷ (newline ∷ []))))))
