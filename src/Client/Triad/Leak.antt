-- ===== src/Client/Triad/Leak.antt =====
-- The error path of triad_gcm_encrypt of ca/triad/triad_ca_api.c on which its second shared memory is
-- not to be had.
use frameworks_security.Base.{
  Bool, sym, ℕ, ◌+◌, ◌%◌, ◌^◌, ◌≡◌, refl, ◌∙◌, ◌≢◌, inl, inr, true, false, Option, some, List, ltb,
  put_self, ℕ_discrete, ap,
}
use frameworks_security.Tee.{Tee, TeeResult, success, is_success-false, ParamTypes, Params}
use frameworks_security.Teec.{Teec, App, TeecLaws, mem_input, mem_output}
use frameworks_security.Triad.Header.{Platform, hdr_size}
use frameworks_security.Client.{in_context}
use frameworks_security.Client.Triad.Gcm.{
  Buffer, encrypt_message, gcm_call, with_input, with_message, with_output, triad_gcm_encrypt,
}

module _ {t : Tee} (c : Teec t) {app : App t} {Fallible : Type 0}
    (client : TeecLaws c app Fallible) where
  open c use {World, held, tee}

  module _ {size output_size ctx shm : ℕ} {buffer : List ℕ} {w w1 w2 : World}
      (initialized : c.initialize_context w ≡ (success, ctx, w1))
      (allocated : c.allocate_memory ctx mem_input size w1 ≡ (success, shm, buffer, w2))
      (refused : (c.allocate_memory ctx mem_output output_size w2).0 ≢ success) where
    abbrev r : TeeResult × ℕ × List ℕ × World
    r = c.allocate_memory ctx mem_output output_size w2

    got_context : ((held w1).contexts ctx ≡ true) × ((held w1).memories ≡ (held w).memories)
    got_context = elim (rw initialized at (client.init_law w)) [
      | inr (_, bad, _) ↦ absurd (bad refl)
      | inl (_, fresh, e, _) ↦ (rw e (put_self ℕ_discrete _ ctx _), rw e refl)
    ]

    got_memory :
        ((held w2).contexts ctx ≡ true)
        × ((held w1).memories shm ≡ false)
        × ((held w2).memories shm ≡ true)
    got_memory = elim (rw allocated at (client.allocate_law ctx size mem_input w1 got_context.0)) [
      | inr (_, bad, _) ↦ absurd (bad refl)
      | inl (_, fresh, e, _, _) ↦ (rw e got_context.0, fresh, rw e (put_self ℕ_discrete _ shm _))
    ]

    -- After the refusal the client holds what it held.
    after_refusal : held r.3 ≡ held w2
    after_refusal = elim (client.allocate_law ctx output_size mem_output w2 got_memory.0) [
      | inl (good, _, _, _, _) ↦ absurd (refused good)
      | inr (_, _, (kept, _)) ↦ kept
    ]

    finalized : (held (c.finalize_context ctx r.3)).memories shm ≡ true
    finalized =
        let (e, _) = client.finalize_law ctx r.3 (rw after_refusal got_memory.0) in
        rw (e, after_refusal) got_memory.2

    module _ {A : Type 0} (a : A) (cmd : ℕ) (types : ParamTypes) (out : Params → Option A)
        (fill : List ℕ → Option (List ℕ)) (message : List ℕ)
        (filled : fill buffer ≡ some message) where
      gcm_call_leaks :
          gcm_call c a cmd types out size output_size fill w
          ≡ some (r.0, a, c.finalize_context ctx r.3)
      unfolding gcm_call in_context with_input with_message with_output
      gcm_call_leaks = rw (initialized, allocated, filled, is_success-false r.0 refused)

  module _ (p : Platform) (gcm_max_len bits : ℕ) (iv aad input tag : Buffer)
      (output message : List ℕ) where
    abbrev pub encrypt_size : ℕ
    encrypt_size = (hdr_size + iv.len + aad.len + input.len) % 2 ^ bits

    -- Where triad_gcm_encrypt gets its context and the memory for the message, and the message is
    -- written there, but the memory for the output is refused, it fails, and the memory for the
    -- message, which was not the client's before, is still the client's.
    pub triad_gcm_encrypt_leaks :
        {ctx shm : ℕ} {buffer : List ℕ} {w w1 w2 : World}
        → c.initialize_context w ≡ (success, ctx, w1)
        → c.allocate_memory ctx mem_input encrypt_size w1 ≡ (success, shm, buffer, w2)
        → (c.allocate_memory ctx mem_output ((input.len + tag.len) % 2 ^ bits) w2).0 ≢ success
        → encrypt_message p iv aad tag.len input buffer ≡ some message
        → ltb gcm_max_len encrypt_size ≡ false
        → (r : TeeResult) × (w' : World) × (triad_gcm_encrypt c p gcm_max_len bits iv aad input tag
              output w
            ≡ some (r, (output, tag.bytes), w'))
          × (r ≢ success)
          × ((held w).memories shm ≡ false)
          × ((held w').memories shm ≡ true)
    unfolding triad_gcm_encrypt
    triad_gcm_encrypt_leaks {shm = shm} initialized allocated refused filled fits = (
      _,
      _,
      rw fits (
          gcm_call_leaks initialized allocated refused (output, tag.bytes) _ _ _
            (encrypt_message p iv aad tag.len input) message filled),
      refused,
      ap (λ (f : ℕ → Bool). f shm) (sym (got_context initialized allocated refused).1)
          ∙ (got_memory initialized allocated refused).1,
      finalized initialized allocated refused,
    )
