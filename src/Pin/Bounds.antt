-- ===== src/Pin/Bounds.antt =====
-- When the commands of ta/pin/pin_ta.c stay within their buffers.
use frameworks_security.Base.{
  ℕ, ◌≡◌, ◌≢◌, refl, ◌≤◌, ◌==◌, ==_iff, inl, inr, some, none, List, length, Bool-cases, if_cases,
  arith,
}
use frameworks_security.Tee.{
  Tee, TeeResult, types_match, types_match_sound, ParamTypes, Params, Name, StorageLaws, DigestLaws,
}
use frameworks_security.Ta.{Outcome}
use frameworks_security.Pin.{
  pin_object, types_output, types_buffer, types_session, pin_store, pin_verify, pin_change,
  pin_get_sha256, pin_check, invoke_command, cmd_store, cmd_verify, cmd_change, cmd_getsha256,
  cmd_chk, cmd_del,
}
use frameworks_security.Pin.Verify.{pin_verify_sound}
use frameworks_security.Pin.Change.{pin_change_outcome}
use frameworks_security.Pin.Digest.{pin_get_sha256_outcome}
use frameworks_security.Pin.Frame.{Spares, invoke_command-Spares}

module _ (t : Tee) where
  open t use {World, view}

  abbrev Returns : Outcome t → Type 0
  Returns out = (r : TeeResult) × (ps' : Params) × (w' : World) × (out ≡ some (r, ps', w'))

  -- The command returns; every object but one is as before, and so are the open handles and
  -- operations.
  abbrev pub Contained : Name → World → Outcome t → Type 0
  Contained n w out =
      (r : TeeResult) × (ps' : Params) × (w' : World) × (out ≡ some (r, ps', w'))
      × ((m : Name) → m ≢ n → (view w').objects m ≡ (view w).objects m)
      × ((view w').handles ≡ (view w).handles)
      × ((view w').digests ≡ (view w).digests)

  contained :
      (n : Name) (w : World) (out : Outcome t) → Returns out → Spares t n w out → Contained n w out
  contained n w none (_, _, _, e) h = absurd (cc)
  contained n w (some (r, ps', w')) _ h = (r, ps', w', refl, h.0, h.1, h.2)

  module _ (laws : StorageLaws t) (sha256 : List ℕ → List ℕ) (digest : DigestLaws t sha256)
      (types : ParamTypes) (ps : Params) (w : World) where
    change-Returns : ps.p0.b ≤ length ps.p1.buffer → Returns (pin_change t types ps w)
    change-Returns fits = elim (Bool-cases (types_match types types_buffer)) [
      | inr bad ↦ unfold pin_change in rw bad (_, ps, w, refl)
      | inl good ↦
          let (r, w', e, _) = pin_change_outcome t laws ps w fits in
          rw (types_match_sound types types_buffer good) (r, ps, w', e)
    ]

    digest-Returns : 32 ≤ length ps.p1.buffer → Returns (pin_get_sha256 t types ps w)
    digest-Returns room = elim (Bool-cases (types_match types types_output)) [
      | inr bad ↦ unfold pin_get_sha256 in rw bad (_, ps, w, refl)
      | inl good ↦
          let (r, ps', w', e, _, _) = pin_get_sha256_outcome t sha256 digest ps room laws w in
          rw (types_match_sound types types_output good) (r, ps', w', e)
    ]

    store-Returns : Returns (pin_store t types ps w)
    unfolding pin_store
    store-Returns =
        if_cases Returns (types_match types types_buffer) (λ _. (_, ps, _, refl))
          (λ _. (_, ps, w, refl))

    check-Returns : Returns (pin_check t types ps w)
    unfolding pin_check
    check-Returns =
        if_cases Returns (types_match types types_session) (λ _. (_, ps, _, refl))
          (λ _. (_, ps, w, refl))

    verify-Returns : Returns (pin_verify t types ps w)
    verify-Returns = let (r, w', e, _, _) = pin_verify_sound t laws types ps w in (r, ps, w', e)

    command-Returns :
        (cmd : ℕ)
        → cmd ≢ cmd_del
        → (cmd ≡ cmd_change → ps.p0.b ≤ length ps.p1.buffer)
        → (cmd ≡ cmd_getsha256 → 32 ≤ length ps.p1.buffer)
        → Returns (invoke_command t cmd types ps w)
    unfolding invoke_command
    command-Returns cmd other fits room =
        if_cases Returns (cmd == cmd_store) (λ _. store-Returns)
          λ _.
            if_cases Returns (cmd == cmd_verify) (λ _. verify-Returns)
              λ _.
                if_cases Returns (cmd == cmd_change)
                  (λ e. change-Returns (fits ((==_iff cmd cmd_change).0 e)))
                  λ _.
                    if_cases Returns (cmd == cmd_getsha256)
                      (λ e. digest-Returns (room ((==_iff cmd cmd_getsha256).0 e)))
                      λ _.
                        if_cases Returns (cmd == cmd_chk) (λ _. check-Returns)
                          λ _.
                            if_cases Returns (cmd == cmd_del) (λ e. absurd (ground arith))
                              λ _. (_, ps, w, refl)

    -- A command other than the deletion, where the old PIN of a change fits the buffer by its stated
    -- length and the buffer of a digest has 32 bytes at least, returns and makes no access outside a
    -- buffer, whatever its parameter types are and whether or not calls of the TEE fail. It changes
    -- no object but the PIN of the store that its first value selects, and leaves no handle and no
    -- operation open.
    pub invoke_command-Contained :
        (cmd : ℕ)
        → cmd ≢ cmd_del
        → (cmd ≡ cmd_change → ps.p0.b ≤ length ps.p1.buffer)
        → (cmd ≡ cmd_getsha256 → 32 ≤ length ps.p1.buffer)
        → Contained (pin_object ps.p0.a) w (invoke_command t cmd types ps w)
    invoke_command-Contained cmd other fits room =
        contained (pin_object ps.p0.a) w (invoke_command t cmd types ps w)
          (command-Returns cmd other fits room)
          (invoke_command-Spares t laws sha256 digest types ps w cmd other)
