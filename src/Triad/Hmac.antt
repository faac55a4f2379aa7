-- ===== src/Triad/Hmac.antt =====
-- TA_Get_HMAC and hmac_sha256 of ta/triad/triad_ta.c. The TEE's transient objects and message
-- authentication are an interface as a parameter.
use frameworks_security.Base.{
  ℕ, ◌*◌, ◌≡◌, refl, ◌≢◌, ◌≤◌, inl, inr, false, not, ◌&&◌, ◌||◌, none, some, List, [], ◌++◌, take,
  drop, replicate, length, ltb, leb, le→leb, ◌==◌, if◌then◌else◌, arith, put_self, ℕ_discrete,
}
use frameworks_security.Tee.{
  Tee, TeeResult, success, error_generic, error_bad_parameters, is_success, ParamType, ParamTypes,
  types_match, types_match_refl, Params, flags_read, StorageLaws, opened,
}
use frameworks_security.Ta.{types_2, Outcome, refuse}
use frameworks_security.Ta.Laws.{Reliable}
use frameworks_security.Triad.{key_object, set_buffer}

pub record Mac (t : Tee) : Type 0 where
  -- TEE_AllocateTransientObject of TEE_TYPE_HMAC_SHA256 for a number of bits, with its handle
  pub allocate_object : ℕ → t.World → TeeResult × ℕ × t.World
  -- TEE_PopulateTransientObject with the secret value
  pub populate : ℕ → List ℕ → t.World → TeeResult × t.World
  -- TEE_AllocateOperation of TEE_ALG_HMAC_SHA256
  pub allocate_operation : ℕ → t.World → TeeResult × ℕ × t.World
  pub set_operation_key : ℕ → ℕ → t.World → TeeResult × t.World
  -- TEE_MACInit and TEE_MACUpdate
  pub mac_update : ℕ → List ℕ → t.World → t.World
  -- TEE_MACComputeFinal into a buffer of the given size
  pub mac_final : ℕ → ℕ → t.World → TeeResult × List ℕ × t.World
  pub free_object : ℕ → t.World → t.World

-- MIN_KEY_SIZE and MAX_KEY_SIZE
abbrev pub min_key_size : ℕ
min_key_size = 24

abbrev pub max_key_size : ℕ
max_key_size = 128

abbrev pub types_hmac : ParamTypes
types_hmac = types_2 ParamType.memref_inout ParamType.value_input

module _ (t : Tee) (m : Mac t) where
  open t use {World, open_object, read_object, close_object, free_operation}

  -- The label `exit` of hmac_sha256; a null handle is 0.
  unfoldable pub hmac_exit : ℕ → ℕ → TeeResult × List ℕ × World → TeeResult × List ℕ × World
  hmac_exit key_handle op_handle (res, out, w) = (
    res,
    out,
    m.free_object key_handle (if op_handle == 0 then w else free_operation op_handle w),
  )

  with_operation : ℕ → List ℕ → ℕ → TeeResult × ℕ × World → TeeResult × List ℕ × World
  unfolding hmac_exit
  with_operation key_handle input outlen (res, op_handle, w) =
      let (res', w') = m.set_operation_key op_handle key_handle w in
      if is_success res
      then hmac_exit key_handle op_handle (
          if is_success res'
          then m.mac_final op_handle outlen (m.mac_update op_handle input w')
          else (res', [], w'))
      else hmac_exit key_handle 0 (res, [], w)

  with_key : List ℕ → List ℕ → ℕ → TeeResult × ℕ × World → TeeResult × List ℕ × World
  unfolding with_operation
  with_key key input outlen (res, key_handle, w) =
      let (res', w') = m.populate key_handle key w in
      if is_success res
      then (if is_success res'
          then with_operation key_handle input outlen (m.allocate_operation (length key * 8) w')
          else hmac_exit key_handle 0 (res', [], w'))
      else hmac_exit 0 0 (res, [], w)

  -- hmac_sha256
  unfoldable pub hmac_sha256 : List ℕ → List ℕ → ℕ → World → TeeResult × List ℕ × World
  unfolding with_key
  hmac_sha256 key input outlen w =
      if ltb (length key) min_key_size || ltb max_key_size (length key)
      then (error_bad_parameters, [], w)
      else with_key key input outlen (m.allocate_object (length key * 8) w)

  -- TA_Get_HMAC after hmac_sha256, with the label `exit`.
  unfoldable pub hmac_result : ℕ → Params → TeeResult × List ℕ × World → Outcome t
  hmac_result obj ps (ret, hmac, w) =
      if is_success ret && length hmac == 32
      then some (success, set_buffer ps (hmac ++ drop 32 ps.p0.buffer), close_object obj w)
      else some (error_generic, ps, close_object obj w)

  -- TA_Get_HMAC after TEE_ReadObjectData: a read that fails gives success, and the object stays
  -- open. The key is padded to 32 bytes.
  unfoldable pub hmac_read : ℕ → Params → TeeResult × List ℕ × World → Outcome t
  unfolding hmac_sha256 hmac_result
  hmac_read obj ps (res, bytes, w) =
      if is_success res
      then (if length bytes == 16
          then (if leb ps.p1.a (length ps.p0.buffer)
              then hmac_result obj ps
                  (hmac_sha256 (bytes ++ replicate 16 0) (take ps.p1.a ps.p0.buffer) 32 w)
              else none)
          else some (success, ps, close_object obj w))
      else some (success, ps, w)

  unfoldable pub hmac_opened : Params → TeeResult × ℕ × World → Outcome t
  unfolding hmac_read
  hmac_opened ps (res, obj, w) =
      if is_success res then hmac_read obj ps (read_object obj 16 w) else some (res, ps, w)

  -- TA_Get_HMAC
  unfoldable pub get_hmac : ParamTypes → Params → World → Outcome t
  unfolding hmac_opened
  get_hmac types ps w =
      if types_match types types_hmac && leb 32 (length ps.p0.buffer) && not (ps.p1.a == 0)
      then hmac_opened ps (open_object key_object flags_read w)
      else refuse t ps w

module _ (t : Tee) (m : Mac t) (laws : StorageLaws t) where
  open t use {World, view}

  -- On a device whose storage does not fail, where the key's object holds fewer than 16 bytes,
  -- TA_Get_HMAC with its parameter types, a buffer of 32 bytes at least and an input that is not
  -- empty reports success and leaves the buffer as it was: the caller's own input stands where the
  -- HMAC is expected.
  pub get_hmac_short :
      Reliable t
      → (ps : Params) (w : World) (stored : List ℕ) → 32 ≤ length ps.p0.buffer
      → ps.p1.a ≢ 0
      → (view w).objects key_object ≡ some stored
      → length (take 16 stored) ≢ 16
      → (w' : World) × (get_hmac t m types_hmac ps w ≡ some (success, ps, w'))
  unfolding get_hmac hmac_opened hmac_read
  get_hmac_short rel ps w stored room some_input there short =
      let r = t.open_object key_object flags_read w in
      let wrong : (length (take 16 stored) == 16) ≡ false = ground arith in
      let input : (ps.p1.a == 0) ≡ false = ground arith in
      elim (laws.open_law key_object flags_read w) [
        | inr (bad, _) ↦ absurd (bad (rel.open_ok key_object flags_read w (λ absent. cc)))
        | inl (good, _, fresh, e) ↦
            elim (laws.read_law r.1 16 (opened key_object flags_read 0) stored r.2
              (rw e (put_self ℕ_discrete _ r.1 _)) refl (rw e there)) [
                | inr (bad, _) ↦ absurd (
                    bad (
                      rel.read_ok r.1 16 (opened key_object flags_read 0) r.2
                        (rw e (put_self ℕ_discrete _ r.1 _)) refl (rw e (λ absent. cc))))
                | inl (ok, bytes, _) ↦ (
                  t.close_object r.1 (t.read_object r.1 16 r.2).2,
                  rw (types_match_refl types_hmac, le→leb 32 _ room, input, good, ok, bytes, wrong),
                )
              ]
      ]
