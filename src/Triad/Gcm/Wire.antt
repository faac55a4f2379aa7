-- ===== src/Triad/Gcm/Wire.antt =====
-- The layout of the messages of triad_key_ae_encrypt and triad_key_ae_decrypt in ta/triad/triad_ta.c.
use mathlib.Core.List.{append_assoc}
use frameworks_security.Base.{
  ◌∙◌, sym, ℕ, ◌+◌, ◌%◌, ◌^◌, ◌≡◌, refl, ◌<◌, some, List, ◌++◌, length, take-append, drop-append,
  length-append, le→leb, arith,
}
use frameworks_security.Triad.Header.{Platform, TkAuthHdr, hdr_size, slice, read_hdr, write_hdr}

-- A part of a message that stands behind `before`.
pub slice-at :
    (at n : ℕ) (message before part rest : List ℕ)
    → message ≡ before ++ (part ++ rest)
    → at ≡ length before
    → n ≡ length part
    → slice at n message ≡ some part
unfolding slice
slice-at at n message before part rest e here sized = rw (
  e,
  here,
  sized,
  le→leb (length before + length part) (length (before ++ (part ++ rest)))
      (omega (arith, length-append before (part ++ rest), length-append part rest)),
  drop-append before (part ++ rest),
  take-append part rest,
)

-- Lengths that fit the fields of the header.
abbrev pub Fits : List ℕ → List ℕ → List ℕ → ℕ → Type 0
Fits iv aad content tag_len =
    (length iv < 2 ^ 8) × (tag_len < 2 ^ 8) × (length aad < 2 ^ 16) × (length content < 2 ^ 16)

abbrev pub hdr_of : List ℕ → List ℕ → List ℕ → ℕ → TkAuthHdr
hdr_of iv aad content tag_len = record {
  iv_len = length iv;
  tag_len = tag_len;
  aad_len = length aad;
  data_len = length content;
}

module _ (p : Platform) where
  abbrev pub header : List ℕ → List ℕ → List ℕ → ℕ → List ℕ
  header iv aad content tag_len = write_hdr p (length iv) tag_len (length aad) (length content)

  pub read-header :
      (iv aad content rest : List ℕ) (tag_len : ℕ)
      → Fits iv aad content tag_len
      → read_hdr p (header iv aad content tag_len ++ rest) ≡ some (hdr_of iv aad content tag_len)
  unfolding read_hdr write_hdr
  read-header iv aad content rest tag_len (f0, f1, f2, f3) =
      let e0 : length iv % 2 ^ 8 ≡ length iv = omega (arith, f0) in
      let e1 : tag_len % 2 ^ 8 ≡ tag_len = omega (arith, f1) in
      let e2 : length aad % 2 ^ 16 ≡ length aad = omega (arith, f2) in
      let e3 : length content % 2 ^ 16 ≡ length content = omega (arith, f3) in
      rw (e0, e1, p.load16_stored (length aad), p.load16_stored (length content), e2, e3)

  pub length-header :
      (iv aad content : List ℕ) (tag_len : ℕ) → length (header iv aad content tag_len) ≡ hdr_size
  unfolding write_hdr
  length-header iv aad content tag_len = refl

module _ (p : Platform) (iv aad : List ℕ) (tag_len : ℕ) (content rest : List ℕ) where
  -- |header|iv|aad| and what follows.
  abbrev pub message : List ℕ
  message = header p iv aad content tag_len ++ (iv ++ (aad ++ rest))

  pub iv-slice : slice hdr_size (length iv) message ≡ some iv
  iv-slice =
      slice-at hdr_size (length iv) message (header p iv aad content tag_len) iv (aad ++ rest) refl
        (sym (length-header p iv aad content tag_len)) refl

  pub aad-slice : slice (hdr_size + length iv) (length aad) message ≡ some aad
  aad-slice =
      slice-at (hdr_size + length iv) (length aad) message (header p iv aad content tag_len ++ iv)
        aad rest (sym (append_assoc (header p iv aad content tag_len) iv (aad ++ rest)))
        (omega (
          arith,
          length-append (header p iv aad content tag_len) iv,
          length-header p iv aad content tag_len,
        ))
        refl

  pub before-rest : message ≡ ((header p iv aad content tag_len ++ iv) ++ aad) ++ rest
  before-rest =
      sym (append_assoc (header p iv aad content tag_len) iv (aad ++ rest))
      ∙ sym (append_assoc (header p iv aad content tag_len ++ iv) aad rest)

  pub length-before :
      hdr_size + length iv + length aad ≡ length ((header p iv aad content tag_len ++ iv) ++ aad)
  length-before = omega (
    arith,
    length-append (header p iv aad content tag_len ++ iv) aad,
    length-append (header p iv aad content tag_len) iv,
    length-header p iv aad content tag_len,
  )
