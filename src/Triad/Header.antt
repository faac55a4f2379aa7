-- ===== src/Triad/Header.antt =====
-- struct tk_auth_hdr of include/triad_ta.h: the lengths at the front of a message that is encrypted or
-- decrypted with the key.
use frameworks_security.Base.{
  ℕ, ◌+◌, ◌%◌, ◌^◌, ◌≡◌, Option, none, some, List, [], ◌∷◌, take, drop, length, leb, if◌then◌else◌,
}

-- How the platform keeps a `uint16_t` in two bytes.
pub record Platform : Type 0 where
  pub load16 : ℕ → ℕ → ℕ
  pub low16 : ℕ → ℕ
  pub high16 : ℕ → ℕ
  pub load16_stored : (n : ℕ) → load16 (low16 n) (high16 n) ≡ n % 2 ^ 16

pub record TkAuthHdr : Type 0 where
  pub iv_len : ℕ
  pub tag_len : ℕ
  pub aad_len : ℕ
  pub data_len : ℕ

-- sizeof(struct tk_auth_hdr)
abbrev pub hdr_size : ℕ
hdr_size = 6

-- `n` bytes at `at`; `none` is a read past the end.
unfoldable pub slice : ℕ → ℕ → List ℕ → Option (List ℕ)
slice at n message = if leb (at + n) (length message) then some (take n (drop at message)) else none

module _ (p : Platform) where
  -- The header at the front of a message.
  unfoldable pub read_hdr : List ℕ → Option TkAuthHdr
  read_hdr (iv ∷ (tag ∷ (a0 ∷ (a1 ∷ (d0 ∷ (d1 ∷ rest)))))) =
      some
        (record { iv_len = iv; tag_len = tag; aad_len = p.load16 a0 a1; data_len = p.load16 d0 d1 })
  read_hdr _ = none

  -- The header of four lengths, each as far as its field has room.
  unfoldable pub write_hdr : ℕ → ℕ → ℕ → ℕ → List ℕ
  write_hdr iv_len tag_len aad_len data_len =
      iv_len % 2 ^ 8
      ∷ (tag_len % 2 ^ 8
          ∷ (p.low16 aad_len ∷ (p.high16 aad_len ∷ (p.low16 data_len ∷ (p.high16 data_len ∷ [])))))
