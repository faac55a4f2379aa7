-- ===== src/Ta/Compare.antt =====
-- The comparison loops of Pin_Verify and Pin_Change against plain equality of byte strings.
use frameworks_security.Base.{
  ℕ, true, ◌≤◌, ◌<◌, ◌≡◌, refl, ◌≢◌, false, none, some, List, [], ◌∷◌, take, length, length-take,
  bytes_eq, bytes_eq_sound, if◌then◌else◌, arith, Bool, Bool-cases, inl, inr, ap,
}
use frameworks_security.Tee.{TeeResult, success, error_generic}
use frameworks_security.Ta.{bytes_match}
use frameworks_security.Ta.{compare_bytes, verdict}

-- In bounds the loop decides whether the buffer begins with the bytes.
pub bytes_match-eq :
    (bytes buffer : List ℕ)
    → length bytes ≤ length buffer
    → bytes_match bytes buffer ≡ some (bytes_eq bytes (take (length bytes) buffer))
unfolding bytes_match bytes_eq
bytes_match-eq [] [] h = refl
bytes_match-eq [] (x ∷ buffer) h = refl
bytes_match-eq (d ∷ bytes) [] h = absurd (omega arith)
bytes_match-eq (d ∷ bytes) (x ∷ buffer) h = ground (arith, bytes_match-eq bytes buffer)

-- Past the end of a buffer that matched so far, the loop reads outside it.
pub bytes_match_overread :
    (bytes buffer : List ℕ)
    → length buffer < length bytes
    → take (length buffer) bytes ≡ buffer
    → bytes_match bytes buffer ≡ none
unfolding bytes_match
bytes_match_overread [] buffer h e = absurd (omega arith)
bytes_match_overread (d ∷ bytes) [] h e = refl
bytes_match_overread (d ∷ bytes) (x ∷ buffer) h e =
    ground (arith, bytes_match_overread bytes buffer)

pub bytes_eq-length : (xs ys : List ℕ) → length xs ≢ length ys → bytes_eq xs ys ≡ false
bytes_eq-length xs ys h = elim (Bool-cases (bytes_eq xs ys)) [
  | inl e ↦ absurd (h (ap length (bytes_eq_sound xs ys e)))
  | inr e ↦ e
]

-- The result of a comparison, as a plain equality decides it.
abbrev pub result_of : Bool → TeeResult
result_of b = if b then success else error_generic

pub compare_bytes-eq :
    (expected : ℕ) (buffer bytes : List ℕ)
    → expected ≤ length buffer
    → compare_bytes expected buffer bytes ≡ some (result_of (bytes_eq bytes (take expected buffer)))
unfolding compare_bytes verdict
compare_bytes-eq expected buffer bytes h = ground (
  arith,
  bytes_match-eq bytes buffer,
  bytes_eq-length bytes (take expected buffer),
  length-take expected buffer,
)

pub result_of-success : (b : Bool) → result_of b ≡ success → b ≡ true
result_of-success b h = ground arith

pub compare_bytes_overread :
    (expected : ℕ) (buffer bytes : List ℕ)
    → length bytes ≡ expected
    → length buffer < length bytes
    → take (length buffer) bytes ≡ buffer
    → compare_bytes expected buffer bytes ≡ none
unfolding compare_bytes verdict
compare_bytes_overread expected buffer bytes e short matches =
    ground (arith, bytes_match_overread bytes buffer short matches)
