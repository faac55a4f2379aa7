-- ===== src/Triad/Gcm/Laws.antt =====
-- The behaviour that the TEE Internal Core API documents for authenticated encryption, for the function
-- that it computes.
use frameworks_security.Base.{◌≤◌, ℕ, ◌*◌, ◌≡◌, Option, some, List, [], ◌++◌, length}
use frameworks_security.Tee.{Tee, success}
use frameworks_security.Triad.Gcm.{Ae, Mode, mode_encrypt, mode_decrypt}

-- An operation with its key, and the message that it was started on.
pub record Operation : Type 0 where
  pub mode : Mode
  pub key : List ℕ
  pub iv : List ℕ
  pub tag_bits : ℕ
  pub aad : List ℕ

-- From a key, an initialisation vector, additional data, the bits of the tag and the plain text to the
-- cipher text and the tag.
abbrev pub Seal : Type 0
Seal = List ℕ → List ℕ → List ℕ → ℕ → List ℕ → List ℕ × List ℕ

pub record AeLaws (t : Tee) (ae : Ae t) (seal : Seal) : Type 0 where
  pub operations : t.World → ℕ → Option Operation
  pub seal_length :
      (key iv aad plain : List ℕ) (tag_len : ℕ)
      → (length (seal key iv aad (tag_len * 8) plain).0 ≡ length plain)
        × (length (seal key iv aad (tag_len * 8) plain).1 ≡ tag_len)
  pub init_law :
      (op : ℕ) (o : Operation) (iv : List ℕ) (bits : ℕ) (w : t.World)
      → operations w op ≡ some o
      → (ae.ae_init op iv bits w).0 ≡ success
      → operations (ae.ae_init op iv bits w).1 op
        ≡ some (record o { iv = iv; tag_bits = bits; aad = [] })
  pub aad_law :
      (op : ℕ) (o : Operation) (aad : List ℕ) (w : t.World)
      → operations w op ≡ some o
      → operations (ae.ae_update_aad op aad w) op ≡ some (record o { aad = o.aad ++ aad })
  pub encrypt_law :
      (op : ℕ) (o : Operation) (plain : List ℕ) (room tag_room : ℕ) (w : t.World)
      → operations w op ≡ some o
      → o.mode ≡ mode_encrypt
      → let (r, cipher, tag, _) = ae.ae_encrypt_final op plain room tag_room w in
        r ≡ success → (cipher, tag) ≡ seal o.key o.iv o.aad o.tag_bits plain
  -- What was sealed is opened.
  pub decrypt_law :
      (op : ℕ) (o : Operation) (plain : List ℕ) (room : ℕ) (w : t.World)
      → operations w op ≡ some o
      → o.mode ≡ mode_decrypt
      → length plain ≤ room
      → let (cipher, tag) = seal o.key o.iv o.aad o.tag_bits plain in
        let (r, out, _) = ae.ae_decrypt_final op cipher room tag w in (r ≡ success) × (out ≡ plain)
