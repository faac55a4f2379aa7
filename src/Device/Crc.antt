-- ===== src/Device/Crc.antt =====
-- The checksum kvs_crc8 of tools/set_model/set_model_api.c.
use Prim.Native.Nat.{bit_and, bit_xor}
use frameworks_security.Base.{
  ℕ, zero, suc, ◌<◌, ◌≡◌, refl, ◌∙◌, ◌%◌, ◌==◌, Bool, true, ◌&&◌, List, [], ◌∷◌, ◌++◌, arith,
  ==_iff, if_cases,
}
use frameworks_security.Device.{crc_shift, crc_loop, kvs_crc8}

crc_shift-bound : (i crc : ℕ) → crc < 256 → crc_shift i crc < 256
unfolding crc_shift
crc_shift-bound zero crc h = h
crc_shift-bound (suc i) crc h =
    crc_shift-bound i _
      (if_cases (λ x. x < 256) (bit_and crc 0x80 == 0) (λ _. omega arith) (λ _. omega arith))

crc_loop-bound : (line : List ℕ) (crc : ℕ) → crc < 256 → crc_loop crc line < 256
unfolding crc_loop
crc_loop-bound [] crc h = h
crc_loop-bound (c ∷ line) crc h =
    crc_loop-bound line _ (crc_shift-bound 8 (bit_xor crc c % 256) (omega arith))

crc_loop-append :
    (crc c : ℕ) (line : List ℕ)
    → crc_loop crc (line ++ c ∷ []) ≡ crc_shift 8 (bit_xor (crc_loop crc line) c % 256)
unfolding crc_loop
crc_loop-append crc c [] = refl
crc_loop-append crc c (d ∷ line) = crc_loop-append (crc_shift 8 (bit_xor crc d % 256)) c line

-- Whether a test holds of each number below a bound.
holds_below : ℕ → (ℕ → Bool) → Bool
holds_below zero test = true
holds_below (suc n) test = test n && holds_below n test

holds_below_lem : (test : ℕ → Bool) (n x : ℕ) → x < n → holds_below n test ≡ true → test x ≡ true
unfolding holds_below
holds_below_lem test zero x lt h = absurd (omega arith)
holds_below_lem test (suc n) x lt h = ground (arith, holds_below_lem test n x)

cancels : ℕ → Bool
cancels x = crc_shift 8 (bit_xor x x % 256) == 0

cancels_all : holds_below 256 cancels ≡ true
unfolding holds_below cancels crc_shift
cancels_all = refl

-- A line followed by its checksum has the checksum 0.
pub kvs_crc8-append : (line : List ℕ) → kvs_crc8 (line ++ kvs_crc8 line ∷ []) ≡ 0
unfolding kvs_crc8 cancels
kvs_crc8-append line =
    crc_loop-append 0 (kvs_crc8 line) line
    ∙ (==_iff _ 0).0 (
        holds_below_lem cancels 256 (kvs_crc8 line) (crc_loop-bound line 0 (omega arith))
          cancels_all)
