-- ===== src/Client/Triad/Gcm.antt =====
-- triad_gcm_encrypt and triad_gcm_decrypt of ca/triad/triad_ca_api.c, with two shared memories.
use frameworks_security.Base.{
  ℕ, ◌+◌, ◌%◌, ◌^◌, Option, none, some, List, drop, length, replicate, ltb, if◌then◌else◌, memcpy,
}
use frameworks_security.Tee.{
  Tee, TeeResult, error_generic, is_success, ParamType, ParamTypes, Params,
}
use frameworks_security.Ta.{types_2}
use frameworks_security.Teec.{Teec, mem_input, mem_output, whole}
use frameworks_security.Triad.Header.{Platform, hdr_size, write_hdr}
use frameworks_security.Triad.Dispatch.{cmd_gcm_encrypt, cmd_gcm_decrypt}
use frameworks_security.Client.{
  memory, op_params, Called, and_then, returned, in_context, in_one_session,
}

abbrev pub types_encrypt : ParamTypes
types_encrypt = types_2 (whole mem_input) (whole mem_output)

abbrev pub types_decrypt : ParamTypes
types_decrypt = record (types_2 (whole mem_input) (whole mem_output)) {
  t2 = ParamType.value_output;
}

-- A buffer of the caller's with the length that is stated for it.
pub record Buffer : Type 0 where
  pub bytes : List ℕ
  pub len : ℕ

-- memcpy of a buffer behind what is in the memory, up to `msg_len`, a `uint32_t`.
abbrev pub then_copy : ℕ → Buffer → Option (List ℕ) → Option (List ℕ)
then_copy msg_len b none = none
then_copy msg_len b (some shm) = memcpy (msg_len % 2 ^ 32) b.len b.bytes shm

module _ (p : Platform) where
  -- |header|, in a memory that was cleared.
  unfoldable pub header_only : ℕ → ℕ → ℕ → ℕ → List ℕ → Option (List ℕ)
  header_only iv_len tag_len aad_len data_len shm =
      memcpy 0 hdr_size (write_hdr p iv_len tag_len aad_len data_len) (replicate (length shm) 0)

  -- |header|iv|aad|input|
  unfoldable pub encrypt_message : Buffer → Buffer → ℕ → Buffer → List ℕ → Option (List ℕ)
  unfolding header_only
  encrypt_message iv aad tag_len input shm = then_copy (hdr_size + iv.len + aad.len) input (
      then_copy (hdr_size + iv.len) aad
        (then_copy hdr_size iv (header_only iv.len tag_len aad.len input.len shm)))

  -- |header|iv|aad|tag|input|
  unfoldable pub decrypt_message : Buffer → Buffer → Buffer → Buffer → List ℕ → Option (List ℕ)
  unfolding header_only
  decrypt_message iv aad tag input shm = then_copy (hdr_size + iv.len + aad.len + tag.len) input (
      then_copy (hdr_size + iv.len + aad.len) tag (
        then_copy (hdr_size + iv.len) aad
          (then_copy hdr_size iv (header_only iv.len tag.len aad.len input.len shm))))

-- memcpy(output, output_shm.buffer, length), and memcpy(tag, output_shm.buffer + length, tag_len).
abbrev pub and_tag : Buffer → List ℕ → Option (List ℕ) → Option (List ℕ × List ℕ)
and_tag tag from none = none
and_tag tag from (some output) = elim (memcpy 0 tag.len from tag.bytes) [
  | none ↦ none
  | some tag' ↦ some (output, tag')
]

unfoldable pub output_and_tag : List ℕ → ℕ → Buffer → Params → Option (List ℕ × List ℕ)
output_and_tag output len tag ps =
    and_tag tag (drop len ps.p1.buffer) (memcpy 0 len ps.p1.buffer output)

module _ {t : Tee} (c : Teec t) {A : Type 0} (a : A) (cmd : ℕ) (types : ParamTypes)
    (out : Params → Option A) where
  open c use {World}

  -- The second allocation, the session, and the label `exit_free_mem`. When the allocation fails the
  -- first memory is not released.
  unfoldable pub with_output : ℕ → ℕ → List ℕ → TeeResult × ℕ × List ℕ × World → Called World A
  with_output ctx input_shm message (res, output_shm, buffer, w) =
      if is_success res
      then and_then (λ w'. c.release_memory output_shm (c.release_memory input_shm w'))
          (in_one_session c a cmd types out ctx
            (op_params (memory message) (memory (replicate (length buffer) 0))) w)
      else some (res, a, w)

  unfoldable pub with_message : ℕ → ℕ → ℕ → World → Option (List ℕ) → Called World A
  unfolding with_output
  with_message ctx input_shm output_size w none = none
  with_message ctx input_shm output_size w (some message) =
      with_output ctx input_shm message (c.allocate_memory ctx mem_output output_size w)

  -- The first allocation and the message in it.
  unfoldable pub with_input :
      ℕ → ℕ → (List ℕ → Option (List ℕ)) → TeeResult × ℕ × List ℕ × World → Called World A
  unfolding with_message
  with_input ctx output_size fill (res, input_shm, buffer, w) =
      if is_success res
      then with_message ctx input_shm output_size w (fill buffer)
      else some (res, a, w)

  unfoldable pub gcm_call : ℕ → ℕ → (List ℕ → Option (List ℕ)) → World → Called World A
  unfolding with_input
  gcm_call input_size output_size fill w =
      in_context c a
        (λ ctx w'. with_input ctx output_size fill (c.allocate_memory ctx mem_input input_size w'))
        (c.initialize_context w)

-- CONFIG_CA_TRIAD_GCM_MAX_LEN, and the width of `size_t`.
module _ {t : Tee} (c : Teec t) (p : Platform) (gcm_max_len bits : ℕ) where
  open c use {World}

  -- The caller's output and tag afterwards.
  unfoldable pub triad_gcm_encrypt :
      Buffer → Buffer → Buffer → Buffer → List ℕ → World → Called World (List ℕ × List ℕ)
  unfolding gcm_call encrypt_message output_and_tag
  triad_gcm_encrypt iv aad input tag output w =
      let size = (hdr_size + iv.len + aad.len + input.len) % 2 ^ bits in
      if ltb gcm_max_len size
      then returned error_generic (output, tag.bytes) w
      else gcm_call c (output, tag.bytes) cmd_gcm_encrypt types_encrypt
          (output_and_tag output input.len tag) size ((input.len + tag.len) % 2 ^ bits)
          (encrypt_message p iv aad tag.len input) w

  -- The caller's output afterwards.
  unfoldable pub triad_gcm_decrypt :
      Buffer → Buffer → Buffer → Buffer → List ℕ → World → Called World (List ℕ)
  unfolding gcm_call decrypt_message
  triad_gcm_decrypt iv aad tag input output w =
      let size = (hdr_size + iv.len + aad.len + tag.len + input.len) % 2 ^ bits in
      if ltb gcm_max_len size
      then returned error_generic output w
      else gcm_call c output cmd_gcm_decrypt types_decrypt
          (λ ps. memcpy 0 input.len ps.p1.buffer output) size (input.len % 2 ^ bits)
          (decrypt_message p iv aad tag input) w
