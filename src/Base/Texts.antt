-- ===== src/Base/Texts.antt =====
-- Texts as bytes, and the memory functions of the C library.
use Prim.Native.Nat.{ℕ, zero, suc, ◌+◌}
use native.Mathlib.Nat.{zero-add}
use Prim.Native.Char.{code}
use Prim.Native.String.{String}
use mathlib.Core.Bool.{◌&&◌}
use mathlib.Core.Option.{Option, none, some}
use mathlib.Core.List.{List, [], ◌∷◌, ◌++◌, append-nil}
use mathlib.Core.Path.{◌≡◌, ◌∙◌, refl}
use mathlib.Core.Logic.{◌≢◌}
use mathlib.Core.Bool.{false}
use Prim.Native.Nat.{◌≤◌, ◌<◌}
use native.Mathlib.Omega.{arith}
use frameworks_security.Base.Tests.{le→leb, leb, ◌==◌, if◌then◌else◌}
use frameworks_security.Base.Lists.{length, take, drop, replicate, take_all, drop_all}

-- The bytes of an ASCII text.
abbrev pub codes : String → List ℕ
codes String.[] = []
codes (String.◌∷◌ c s) = code c ∷ codes s

-- The string that a char array holds: the bytes before the first zero.
unfoldable pub c_string : List ℕ → List ℕ
c_string [] = []
c_string (x ∷ xs) = if x == 0 then [] else x ∷ c_string xs

-- memcpy(to + at, from, n): the memory `to` afterwards. `none` is an access outside one of them.
unfoldable pub memcpy : ℕ → ℕ → List ℕ → List ℕ → Option (List ℕ)
memcpy at n from to =
    if leb n (length from) && leb (at + n) (length to)
    then some (take at to ++ (take n from ++ drop (at + n) to))
    else none

-- strcpy(to, from) and strcat(to, from)
unfoldable pub strcpy : List ℕ → List ℕ → Option (List ℕ)
unfolding memcpy c_string
strcpy to from = memcpy 0 (length (c_string from) + 1) (c_string from ++ 0 ∷ []) to

unfoldable pub strcat : List ℕ → List ℕ → Option (List ℕ)
unfolding memcpy c_string
strcat to from =
    memcpy (length (c_string to)) (length (c_string from) + 1) (c_string from ++ 0 ∷ []) to

-- memcpy within both memories, and of everything in a list.
pub memcpy_within :
    (at n : ℕ) (from to : List ℕ)
    → n ≤ length from
    → at + n ≤ length to
    → memcpy at n from to ≡ some (take at to ++ (take n from ++ drop (at + n) to))
unfolding memcpy
memcpy_within at n from to has room =
    rw (le→leb n (length from) has, le→leb (at + n) (length to) room)

pub memcpy_all :
    (at : ℕ) (from to : List ℕ)
    → at + length from ≤ length to
    → memcpy at (length from) from to ≡ some (take at to ++ (from ++ drop (at + length from) to))
memcpy_all at from to fits =
    memcpy_within at (length from) from to (omega arith) fits
    ∙ rw (take_all (length from) from (omega arith))

-- memcpy up to the end of the memory.
pub memcpy_end :
    (at n : ℕ) (from to : List ℕ)
    → at + n ≡ length to
    → n ≤ length from
    → memcpy at n from to ≡ some (take at to ++ take n from)
unfolding memcpy
memcpy_end at n from to whole fits = rw (
  le→leb n (length from) fits,
  le→leb (at + n) (length to) (omega (arith, whole)),
  drop_all (at + n) to (omega (arith, whole)),
  append-nil,
)

pub memcpy_out : (at n : ℕ) (from to : List ℕ) → length to < at + n → memcpy at n from to ≡ none
unfolding memcpy
memcpy_out at n from to short = ground arith

-- A byte that a text does not have.
abbrev pub Lacks : ℕ → List ℕ → Type 0
Lacks b [] = Unit
Lacks b (x ∷ xs) = (x ≢ b) × Lacks b xs

pub Lacks-append : (b : ℕ) (xs ys : List ℕ) → Lacks b xs → Lacks b ys → Lacks b (xs ++ ys)
Lacks-append b [] ys h k = k
Lacks-append b (x ∷ xs) ys (ne, h) k = (ne, Lacks-append b xs ys h k)

-- A text without a zero is its own string.
pub c_string-all : (xs : List ℕ) → Lacks 0 xs → c_string xs ≡ xs
unfolding c_string
c_string-all [] h = refl
c_string-all (x ∷ xs) (ne, h) =
    let other : (x == 0) ≡ false = ground arith in rw (other, c_string-all xs h)

-- Arrays of zeros.
pub drop-zeros : (j n m : ℕ) → n ≡ j + m → drop {A = ℕ} j (replicate n 0) ≡ replicate m 0
drop-zeros zero n m e = rw (e, zero-add)
drop-zeros (suc j) zero m e = absurd (omega (arith, e))
drop-zeros (suc j) (suc n) m e = drop-zeros j n m (omega (arith, e))

pub c_string-zeros : (s : List ℕ) (k : ℕ) → Lacks 0 s → c_string (s ++ replicate k 0) ≡ s
unfolding c_string
c_string-zeros [] zero h = refl
c_string-zeros [] (suc k) h = refl
c_string-zeros (x ∷ s) k (ne, h) =
    let other : (x == 0) ≡ false = ground arith in rw (other, c_string-zeros s k h)
