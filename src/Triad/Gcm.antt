-- ===== src/Triad/Gcm.antt =====
-- get_triad_key, triad_key_ae_encrypt, triad_key_ae_decrypt, triad_key_auth_crypt, TA_Gcm_Encrypt and
-- TA_Gcm_Decrypt of ta/triad/triad_ta.c. The TEE's authenticated encryption is an interface as a
-- parameter.
pub mod Laws
pub mod Wire
pub mod RoundTrip
mod Tests
use frameworks_security.Base.{
  ℕ, ◌+◌, ◌*◌, ◌%◌, ◌^◌, ◌&&◌, not, Option, none, some, List, ◌++◌, drop, replicate, length, ◌==◌,
  if◌then◌else◌, memcpy,
}
use frameworks_security.Tee.{
  Tee, TeeResult, error_generic, error_security, is_success, ParamType, ParamTypes, types_match,
  Params, flags_read,
}
use frameworks_security.Ta.{types_2, Outcome, refuse, set_buffer}
use frameworks_security.Triad.{key_object, key_size}
use frameworks_security.Triad.Header.{Platform, TkAuthHdr, hdr_size, slice, read_hdr}

-- TEE_MODE_ENCRYPT and TEE_MODE_DECRYPT
pub data Mode : Type 0 where
  mode_encrypt mode_decrypt : Mode

pub record Ae (t : Tee) : Type 0 where
  -- TEE_AllocateOperation of TEE_ALG_AES_GCM, for a key of a number of bits
  pub allocate_operation : Mode → ℕ → t.World → TeeResult × ℕ × t.World
  -- TEE_AllocateTransientObject of TEE_TYPE_AES
  pub allocate_object : ℕ → t.World → TeeResult × ℕ × t.World
  -- TEE_PopulateTransientObject with the secret value
  pub populate : ℕ → List ℕ → t.World → TeeResult × t.World
  pub set_operation_key : ℕ → ℕ → t.World → TeeResult × t.World
  -- TEE_AEInit with the initialisation vector and the bits of the tag
  pub ae_init : ℕ → List ℕ → ℕ → t.World → TeeResult × t.World
  pub ae_update_aad : ℕ → List ℕ → t.World → t.World
  -- TEE_AEEncryptFinal with the sizes of the two buffers; what it writes to them
  pub ae_encrypt_final : ℕ → List ℕ → ℕ → ℕ → t.World → TeeResult × List ℕ × List ℕ × t.World
  -- TEE_AEDecryptFinal with the size of the buffer and the tag
  pub ae_decrypt_final : ℕ → List ℕ → ℕ → List ℕ → t.World → TeeResult × List ℕ × t.World
  -- TEE_FreeTransientObject
  pub free_object : ℕ → t.World → t.World

abbrev pub types_encrypt : ParamTypes
types_encrypt = types_2 ParamType.memref_input ParamType.memref_output

abbrev pub types_decrypt : ParamTypes
types_decrypt = record (types_2 ParamType.memref_input ParamType.memref_output) {
  t2 = ParamType.value_output;
}

module _ (t : Tee) where
  open t use {World, open_object, read_object, close_object, free_operation}

  -- The result, the output buffer, `*out_sz` where it was written, and the state.
  abbrev pub Crypted : Type 0
  Crypted = Option (TeeResult × List ℕ × Option ℕ × World)

  -- get_triad_key after it opened the object: the array keeps its bytes where the object has none.
  unfoldable pub key_read : ℕ → List ℕ → TeeResult × List ℕ × World → TeeResult × List ℕ × World
  key_read obj key (res, bytes, w) = (res, bytes ++ drop (length bytes) key, close_object obj w)

  -- get_triad_key; the key array afterwards
  unfoldable pub get_triad_key : List ℕ → World → TeeResult × List ℕ × World
  unfolding key_read
  get_triad_key key w =
      let (res, obj, w') = open_object key_object flags_read w in
      if is_success res then key_read obj key (read_object obj (length key) w') else (res, key, w')

  -- What a final call writes to the buffer.
  unfoldable pub written : List ℕ → ℕ → Option (List ℕ) → Option (List ℕ)
  written bytes at none = none
  written bytes at (some out) = memcpy at (length bytes) bytes out

  -- `if (res) return TEE_ERROR_SECURITY;`, and otherwise the length of the output is given back.
  unfoldable pub crypted : TeeResult → ℕ → World → Option (List ℕ) → Crypted
  crypted res output_len w none = none
  crypted res output_len w (some out) =
      if is_success res
      then some (res, out, some output_len, w)
      else some (error_security, out, none, w)

  module _ (ae : Ae t) where
    unfoldable pub encrypt_final : ℕ → TkAuthHdr → List ℕ → World → Option (List ℕ) → Crypted
    unfolding written crypted
    encrypt_final op h out w none = none
    encrypt_final op h out w (some input) =
        let (res, output, tag, w') =
          ae.ae_encrypt_final op input (h.data_len + h.tag_len) h.tag_len w in
        crypted res (length output) w' (written tag h.data_len (written output 0 (some out)))

    unfoldable pub encrypt_aad : ℕ → TkAuthHdr → List ℕ → List ℕ → World → Option (List ℕ) → Crypted
    unfolding encrypt_final slice
    encrypt_aad op h message out w none = none
    encrypt_aad op h message out w (some aad) =
        encrypt_final op h out (ae.ae_update_aad op aad w)
          (slice (hdr_size + h.iv_len + h.aad_len) h.data_len message)

    unfoldable pub encrypt_iv : ℕ → TkAuthHdr → List ℕ → List ℕ → World → Option (List ℕ) → Crypted
    unfolding encrypt_aad slice
    encrypt_iv op h message out w none = none
    encrypt_iv op h message out w (some iv) =
        let (res, w') = ae.ae_init op iv (h.tag_len * 8) w in
        let rest =
          encrypt_aad op h message out w' (slice (hdr_size + h.iv_len) h.aad_len message) in
        if is_success res then rest else some (res, out, none, w')

    unfoldable pub encrypt_with : ℕ → List ℕ → List ℕ → World → Option TkAuthHdr → Crypted
    unfolding encrypt_iv slice
    encrypt_with op message out w none = none
    encrypt_with op message out w (some h) =
        encrypt_iv op h message out w (slice hdr_size h.iv_len message)

    unfoldable pub decrypt_final :
        ℕ → TkAuthHdr → List ℕ → World → List ℕ → Option (List ℕ) → Crypted
    unfolding written crypted
    decrypt_final op h out w tag none = none
    decrypt_final op h out w tag (some input) =
        let (res, output, w') = ae.ae_decrypt_final op input h.data_len tag w in
        crypted res (length output) w' (written output 0 (some out))

    unfoldable pub decrypt_tag : ℕ → TkAuthHdr → List ℕ → List ℕ → World → Option (List ℕ) → Crypted
    unfolding decrypt_final slice
    decrypt_tag op h message out w none = none
    decrypt_tag op h message out w (some tag) =
        decrypt_final op h out w tag
          (slice (hdr_size + h.iv_len + h.aad_len + h.tag_len) h.data_len message)

    unfoldable pub decrypt_aad : ℕ → TkAuthHdr → List ℕ → List ℕ → World → Option (List ℕ) → Crypted
    unfolding decrypt_tag slice
    decrypt_aad op h message out w none = none
    decrypt_aad op h message out w (some aad) =
        decrypt_tag op h message out (ae.ae_update_aad op aad w)
          (slice (hdr_size + h.iv_len + h.aad_len) h.tag_len message)

    unfoldable pub decrypt_iv : ℕ → TkAuthHdr → List ℕ → List ℕ → World → Option (List ℕ) → Crypted
    unfolding decrypt_aad slice
    decrypt_iv op h message out w none = none
    decrypt_iv op h message out w (some iv) =
        let (res, w') = ae.ae_init op iv (h.tag_len * 8) w in
        let rest =
          decrypt_aad op h message out w' (slice (hdr_size + h.iv_len) h.aad_len message) in
        if is_success res then rest else some (res, out, none, w')

    unfoldable pub decrypt_with : ℕ → List ℕ → List ℕ → World → Option TkAuthHdr → Crypted
    unfolding decrypt_iv slice
    decrypt_with op message out w none = none
    decrypt_with op message out w (some h) =
        decrypt_iv op h message out w (slice hdr_size h.iv_len message)

    module _ (p : Platform) where
      -- triad_key_ae_encrypt: |header|iv|aad|input| to the data and the tag behind it.
      unfoldable pub triad_key_ae_encrypt : ℕ → List ℕ → List ℕ → World → Crypted
      unfolding encrypt_with
      triad_key_ae_encrypt op message out w = encrypt_with op message out w (read_hdr p message)

      -- triad_key_ae_decrypt: |header|iv|aad|tag|input|.
      unfoldable pub triad_key_ae_decrypt : ℕ → List ℕ → List ℕ → World → Crypted
      unfolding decrypt_with
      triad_key_ae_decrypt op message out w = decrypt_with op message out w (read_hdr p message)

      -- `switch (mode)`
      unfoldable pub crypt_mode : Mode → ℕ → List ℕ → List ℕ → World → Crypted
      unfolding triad_key_ae_encrypt triad_key_ae_decrypt
      crypt_mode mode_encrypt op message out w = triad_key_ae_encrypt op message out w
      crypt_mode mode_decrypt op message out w = triad_key_ae_decrypt op message out w

      -- The labels `out_key` and `out_op`.
      abbrev pub cleanup : (World → World) → Crypted → Crypted
      cleanup undo none = none
      cleanup undo (some (res, out, out_len, w)) = some (res, out, out_len, undo w)

      abbrev pub fails : TeeResult → List ℕ → World → Crypted
      fails res out w = some (res, out, none, w)

      -- TEE_PopulateTransientObject, TEE_SetOperationKey and the mode, up to `out_key`.
      unfoldable pub with_key_object :
          Mode → ℕ → List ℕ → List ℕ → List ℕ → TeeResult × ℕ × World → Crypted
      unfolding crypt_mode
      with_key_object mode op key message out (res, key_obj, w) =
          let (res1, w1) = ae.populate key_obj key w in
          let (res2, w2) = ae.set_operation_key op key_obj w1 in
          if is_success res
          then cleanup (ae.free_object key_obj) (
              if is_success res1
              then (if is_success res2
                  then crypt_mode mode op message out w2
                  else fails res2 out w2)
              else fails res1 out w1)
          else fails res out w

      unfoldable pub with_triad_key :
          Mode → ℕ → List ℕ → List ℕ → TeeResult × List ℕ × World → Crypted
      unfolding with_key_object
      with_triad_key mode op message out (res, key, w) =
          if is_success res
          then with_key_object mode op key message out (ae.allocate_object (key_size * 8) w)
          else fails res out w

      unfoldable pub with_crypto_op : Mode → List ℕ → List ℕ → TeeResult × ℕ × World → Crypted
      unfolding with_triad_key get_triad_key
      with_crypto_op mode message out (res, op, w) =
          if is_success res
          then cleanup (free_operation op)
              (with_triad_key mode op message out (get_triad_key (replicate key_size 0) w))
          else fails res out w

      -- triad_key_auth_crypt
      unfoldable pub triad_key_auth_crypt : Mode → List ℕ → List ℕ → World → Crypted
      unfolding with_crypto_op
      triad_key_auth_crypt mode message out w =
          with_crypto_op mode message out (ae.allocate_operation mode (key_size * 8) w)

      abbrev pub encrypted : Params → Crypted → Outcome t
      encrypted ps none = none
      encrypted ps (some (res, out, _, w)) = some (res, set_buffer ps out, w)

      -- TA_Gcm_Encrypt
      unfoldable pub gcm_encrypt : ParamTypes → Params → World → Outcome t
      unfolding triad_key_auth_crypt
      gcm_encrypt types ps w =
          if types_match types types_encrypt && not (length ps.p0.buffer == 0)
          then encrypted ps (triad_key_auth_crypt mode_encrypt ps.p0.buffer ps.p1.buffer w)
          else refuse t ps w

      -- `params[2].value.a = out_len;`, where `out_len` is what the stack held if it was not written.
      unfoldable pub set_length : ℕ → Params → Option ℕ → Params
      set_length stack ps none = record ps { p2 = record (ps.p2) { a = stack } }
      set_length stack ps (some n) = record ps { p2 = record (ps.p2) { a = n % 2 ^ 32 } }

      unfoldable pub decrypted : ℕ → Params → Crypted → Outcome t
      unfolding set_length
      decrypted stack ps none = none
      decrypted stack ps (some (res, out, out_len, w)) = some (
        if is_success res then res else error_generic,
        set_length stack (set_buffer ps out) out_len,
        w,
      )

      -- TA_Gcm_Decrypt
      unfoldable pub gcm_decrypt : ℕ → ParamTypes → Params → World → Outcome t
      unfolding triad_key_auth_crypt decrypted
      gcm_decrypt stack types ps w =
          if types_match types types_decrypt && not (length ps.p0.buffer == 0)
          then decrypted stack ps (triad_key_auth_crypt mode_decrypt ps.p0.buffer ps.p1.buffer w)
          else refuse t ps w
