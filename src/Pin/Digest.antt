-- ===== src/Pin/Digest.antt =====
-- Pin_GetSha256 of ta/pin/pin_ta.c.
use frameworks_security.Base.{
  ℕ, ◌+◌, ◌≡◌, refl, ◌∙◌, ◌≢◌, ◌≤◌, inl, inr, none, some, List, [], ◌++◌, ◌==◌, take, drop, length,
  if◌then◌else◌, arith, Bool-cases, put_self, put_same, put-put, ap, put, ℕ_discrete,
}
use frameworks_security.Tee.{
  Tee, TeeResult, success, error_generic, types_match_refl, Params, StorageLaws, DigestLaws,
  flags_read, opened, is_success-false,
}
use frameworks_security.Ta.{close_after, write_front}
use frameworks_security.Ta.Laws.{close-opened}
use frameworks_security.Ta.Reading.{with_object_cases}
use frameworks_security.Pin.{
  pin_object, types_output, digest_result, hash_end, digest_with, digest_pin, pin_get_sha256,
}
use frameworks_security.Ta.{Outcome, set_buffer}

module _ (t : Tee) (sha256 : List ℕ → List ℕ) (digest : DigestLaws t sha256) where
  open t use {World, view}

  pub free-allocated :
      (w w2 : World) (op : ℕ) (taken : List ℕ)
      → (view w).digests op ≡ none
      → view w2 ≡ record (view w) { digests = put ℕ_discrete (view w).digests op (some taken) }
      → view (t.free_operation op w2) ≡ view w
  free-allocated w w2 op taken fresh e =
      digest.free_law op taken w2 (rw e (put_self ℕ_discrete _ op _))
      ∙ rw (e, put-put, put_same ℕ_discrete (view w).digests op none fresh)

  pub hash_end-eq :
      (op : ℕ) (r : TeeResult) (ps' : Params) (w : World)
      → op ≢ 0
      → hash_end t op (some (r, ps', w)) ≡ some (r, ps', t.free_operation op w)
  unfolding hash_end
  hash_end-eq op r ps' w live = ground arith

module _ (t : Tee) (sha256 : List ℕ → List ℕ) (digest : DigestLaws t sha256) (ps : Params)
    (fits : 32 ≤ length ps.p1.buffer) where
  open t use {World, view}

  -- The parameters with the digest of the bytes at the front of the buffer.
  abbrev pub with_digest : List ℕ → Params
  with_digest bytes = set_buffer ps (sha256 bytes ++ drop 32 ps.p1.buffer)

  -- A digest was computed into the buffer or a call failed; the state is as before.
  abbrev pub Digests : List ℕ → World → Outcome t → Type 0
  Digests bytes w result =
      (r : TeeResult) × (ps' : Params) × (w' : World) × (result ≡ some (r, ps', w'))
      × (view w' ≡ view w)
      × (r ≡ success → (bytes ≢ []) × (ps' ≡ with_digest bytes))

  digest_result-eq :
      (res : TeeResult) (bytes : List ℕ) (w : World)
      → length bytes ≤ 32
      → digest_result t ps (res, bytes, w)
        ≡ some (
          if length bytes == 32 then res else error_generic,
          set_buffer ps (bytes ++ drop (length bytes) ps.p1.buffer),
          w,
        )
  unfolding digest_result write_front
  digest_result-eq res bytes w h = ground arith

  finish_digest :
      (bytes : List ℕ) (w w1 : World) (op : ℕ)
      → bytes ≢ []
      → op ≢ 0
      → (view w).digests op ≡ none
      → view w1 ≡ record (view w) { digests = put ℕ_discrete (view w).digests op (some bytes) }
      → Digests bytes w (hash_end t op (digest_result t ps (t.digest_do_final op 32 w1)))
  finish_digest bytes w w1 op some_bytes live fresh e =
      elim (digest.final_law op 32 bytes w1 (rw e (put_self ℕ_discrete _ op _))) [
        | inl (good, out, e2) ↦ (
          success,
          with_digest bytes,
          t.free_operation op r.2,
          rw
              (
                good,
                out,
                digest_result-eq success (sha256 bytes) r.2
                    (omega (arith, digest.sha256_length bytes)),
                digest.sha256_length bytes,
              )
              (hash_end-eq t sha256 digest op success (with_digest bytes) r.2 live),
          free-allocated t sha256 digest w r.2 op [] fresh (rw (e2, e, put-put)),
          λ _. (some_bytes, refl),
        )
        | inr (room, (bad, same)) ↦ (
          if length r.1 == 32 then r.0 else error_generic,
          set_buffer ps (r.1 ++ drop (length r.1) ps.p1.buffer),
          t.free_operation op r.2,
          rw (digest_result-eq r.0 r.1 r.2 room) (hash_end-eq t sha256 digest op _ _ r.2 live),
          free-allocated t sha256 digest w r.2 op bytes fresh (same ∙ e),
          λ ok. absurd (ground arith),
        )
      ]
    where
      r : TeeResult × List ℕ × World
      r = t.digest_do_final op 32 w1

  digest_with-Digests :
      (bytes : List ℕ) (w : World)
      → bytes ≢ []
      → Digests bytes w (digest_with t ps bytes (t.allocate_digest w))
  unfolding digest_with
  digest_with-Digests bytes w some_bytes = elim (digest.allocate_law w) [
    | inr (null, (bad, same)) ↦
        (r.0, ps, r.2, rw (is_success-false r.0 bad, null, hash_end), same, λ ok. absurd (bad ok))
    | inl (good, live, fresh, e) ↦ rw good (
        finish_digest bytes w (t.digest_update r.1 bytes r.2) r.1 some_bytes live fresh (
          digest.update_law r.1 bytes [] r.2 (rw e (put_self ℕ_discrete _ r.1 _))
          ∙ rw (e, put-put)))
  ]
    where
      r : TeeResult × ℕ × World
      r = t.allocate_digest w

  digest_pin-Digests : (bytes : List ℕ) (w : World) → Digests bytes w (digest_pin t ps bytes w)
  unfolding digest_pin
  digest_pin-Digests bytes w = elim (Bool-cases (length bytes == 0)) [
    | inl empty ↦ (error_generic, ps, w, rw empty, refl, λ e. cc)
    | inr more ↦ rw more (digest_with-Digests bytes w (λ e. ground (arith, ap length e)))
  ]

  -- With its parameter types and a buffer of 32 bytes at least, Pin_GetSha256 stays within the
  -- buffer and leaves the stored state, the open handles and the operations as they were. If it
  -- succeeds, the object exists and is not empty, and the buffer starts with the digest of its
  -- first 32 bytes.
  pub pin_get_sha256_outcome :
      (laws : StorageLaws t) (w : World)
      → (r : TeeResult) × (ps' : Params) × (w' : World) × (pin_get_sha256 t types_output ps w
          ≡ some (r, ps', w'))
        × (view w' ≡ view w)
        × (r ≡ success
            → (stored : List ℕ) × ((view w).objects (pin_object ps.p0.a) ≡ some stored)
              × (take 32 stored ≢ [])
              × (ps' ≡ with_digest (take 32 stored)))
  unfolding pin_get_sha256
  pin_get_sha256_outcome laws w =
      rw (types_match_refl types_output)
        (elim (with_object_cases t laws (pin_object ps.p0.a) 32 ps w (digest_pin t ps)) [
          | inl (r, w', bad, same, e) ↦ (r, ps, w', e, same, λ ok. absurd (bad ok))
          | inr (stored, obj, w2, there, fresh, e, ran) ↦
              let (r, ps', w3, done, same, ok) = digest_pin-Digests (take 32 stored) w2 in
              (
                r,
                ps',
                t.close_object obj w3,
                ran ∙ rw (done, close_after),
                close-opened t laws (view w) obj
                    (opened (pin_object ps.p0.a) flags_read (0 + length (take 32 stored))) w3 fresh
                    (same ∙ e),
                λ h. (stored, there, (ok h).0, (ok h).1),
              )
        ])
