-- ===== src/Pin/Guesses.antt =====
-- What a PIN in the store of ta/pin/pin_ta.c accepts after any number of guesses.
use frameworks_security.Base.{
  ℕ, ◌≡◌, refl, ◌∙◌, ◌≢◌, ◌<◌, inl, inr, some, List, [], ◌∷◌, map, take, length, length-take, arith,
  put_self, bytes_eq, bytes_eq_refl,
}
use frameworks_security.Tee.{
  Tee, TeeResult, success, error_generic, types_match_refl, flags_create, ParamTypes, Params,
  StorageLaws, Name-discrete,
}
use frameworks_security.Ta.{Outcome, store_object}
use frameworks_security.Ta.Compare.{result_of, bytes_eq-length}
use frameworks_security.Ta.Laws.{Reliable, store_object-Stores, store_object_failed}
use frameworks_security.Pin.{
  pin_object, types_buffer, pin_store, pin_verify, invoke_command, cmd_verify,
}
use frameworks_security.Pin.Verify.{pin_verify_sound, pin_verify_decides}
use frameworks_security.Pin.Session.{Request, run_requests}

-- Requests to verify.
abbrev pub guesses :
    {t : Tee} (laws : StorageLaws t) → List (ParamTypes × Params) → List (Request t laws)
guesses laws gs = map (λ g. (cmd_verify, g.0, g.1)) gs

module _ (t : Tee) (laws : StorageLaws t) where
  open t use {World, view}

  run_guess :
      (types : ParamTypes) (ps ps' : Params) (rest : List (Request t laws)) (w w1 : World)
      (r : TeeResult)
      → pin_verify t types ps w ≡ some (r, ps', w1)
      → run_requests t laws ((cmd_verify, types, ps) ∷ rest) w ≡ run_requests t laws rest w1
  unfolding run_requests invoke_command
  run_guess types ps ps' rest w w1 r e = rw (e, run_requests) refl

  -- Guesses all return and change nothing.
  guessed :
      (gs : List (ParamTypes × Params)) (w : World)
      → (w' : World) × (run_requests t laws (guesses laws gs) w ≡ some w') × (view w' ≡ view w)
  guessed [] w = (w, unfold run_requests in refl, refl)
  guessed ((types, ps) ∷ gs) w =
      let (r, w1, e, same, _) = pin_verify_sound t laws types ps w in
      let (w', rest, kept) = guessed gs w1 in
      (w', run_guess types ps ps (guesses laws gs) w w1 r e ∙ rest, kept ∙ same)

  module _ (rel : Reliable t) (gs : List (ParamTypes × Params)) (ps qs : Params)
      (same : qs.p0.a ≡ ps.p0.a) where
    -- After the guesses a PIN in the store is compared as before them.
    decides_later :
        (pin : List ℕ) (w1 : World)
        → (view w1).objects (pin_object ps.p0.a) ≡ some pin
        → (w2 : World) × (w3 : World) × (run_requests t laws (guesses laws gs) w1 ≡ some w2)
          × (pin_verify t types_buffer qs w2
              ≡ some (result_of (bytes_eq (take 32 pin) qs.p1.buffer), qs, w3))
    decides_later pin w1 there =
        let (w2, ran, kept) = guessed gs w1 in
        let (w3, _, e) = pin_verify_decides t laws rel qs w2 pin (rw (same, kept) there) in
        (w2, w3, ran, e)

    stored_pin :
        (w w1 : World)
        → pin_store t types_buffer ps w ≡ some (success, ps, w1)
        → (view w1).objects (pin_object ps.p0.a) ≡ some ps.p1.buffer
    unfolding pin_store
    stored_pin w w1 stored = elim (store_object-Stores t laws (pin_object ps.p0.a) ps.p1.buffer w) [
      | inl (good, e) ↦
          let here : r.1 ≡ w1 = cc done in
          rw (← here, e) (put_self Name-discrete _ (pin_object ps.p0.a) _)
      | inr (bad, _) ↦ absurd (bad (cc done))
    ]
      where
        r : TeeResult × World
        r = store_object t (pin_object ps.p0.a) ps.p1.buffer w

        done : ◌≡◌ {A = Outcome t} (some (r.0, ps, r.1)) (some (success, ps, w1))
        done = rw (types_match_refl types_buffer) at stored

    -- On a device whose storage does not fail: after a PIN of more than 32 bytes was stored with
    -- success and any number of guesses was made, each with any types and parameters, the whole PIN
    -- is refused with a generic error, and its first 32 bytes are accepted.
    pub long_pin :
        (w w1 : World)
        → pin_store t types_buffer ps w ≡ some (success, ps, w1)
        → 32 < length ps.p1.buffer
        → (w2 : World) × (w3 : World) × (run_requests t laws (guesses laws gs) w1 ≡ some w2)
          × (qs.p1.buffer ≡ ps.p1.buffer
              → pin_verify t types_buffer qs w2 ≡ some (error_generic, qs, w3))
          × (qs.p1.buffer ≡ take 32 ps.p1.buffer
              → pin_verify t types_buffer qs w2 ≡ some (success, qs, w3))
    long_pin w w1 stored long =
        let (w2, w3, ran, e) = decides_later ps.p1.buffer w1 (stored_pin w w1 stored) in
        (
          w2,
          w3,
          ran,
          λ whole.
              e
              ∙ rw (
                whole,
                bytes_eq-length (take 32 ps.p1.buffer) ps.p1.buffer
                    (omega (arith, length-take 32 ps.p1.buffer)),
              ),
          λ part. e ∙ rw (part, bytes_eq_refl (take 32 ps.p1.buffer)),
        )

    -- On a device whose storage does not fail in opening and reading: where the object of a store is
    -- created and its write fails, Pin_Store reports an error and the old PIN is lost: after any
    -- number of guesses, each with any types and parameters, the empty PIN is accepted.
    pub lost_pin :
        (w w1 : World) {obj : ℕ}
        → t.create_object (pin_object ps.p0.a) flags_create w ≡ (success, obj, w1)
        → (t.write_object obj ps.p1.buffer w1).0 ≢ success
        → qs.p1.buffer ≡ []
        → (r : TeeResult) × (w' : World) × (w2 : World) × (w3 : World) × (pin_store t types_buffer
              ps w
            ≡ some (r, ps, w'))
          × (r ≢ success)
          × (run_requests t laws (guesses laws gs) w' ≡ some w2)
          × (pin_verify t types_buffer qs w2 ≡ some (success, qs, w3))
    unfolding pin_store
    lost_pin w w1 {obj} created failed empty =
        let (refused, left) =
          store_object_failed t laws (pin_object ps.p0.a) ps.p1.buffer w w1 created failed in
        let (w2, w3, ran, e) =
          decides_later [] r.1 (rw left (put_self Name-discrete _ (pin_object ps.p0.a) _)) in
        (
          r.0,
          r.1,
          w2,
          w3,
          rw (types_match_refl types_buffer),
          refused,
          ran,
          e ∙ rw (empty, bytes_eq_refl []),
        )
      where
        r : TeeResult × World
        r = store_object t (pin_object ps.p0.a) ps.p1.buffer w
