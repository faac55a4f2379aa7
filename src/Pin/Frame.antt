-- ===== src/Pin/Frame.antt =====
-- What no command of ta/pin/pin_ta.c touches.
use frameworks_security.Base.{
  subst, sym, ℕ, ◌+◌, ◌≡◌, refl, sym, ◌∙◌, ◌≢◌, inl, inr, none, some, List, [], ◌==◌, take, drop,
  length, if◌then◌else◌, arith, Bool-cases, if_cases, Option-cases, put_self, put-put, put_ne, ap,
  put, ℕ_discrete,
}
use frameworks_security.Tee.{
  Tee, TeeResult, error_generic, error_bad_parameters, is_success, types_match, Name, ParamTypes,
  Params, StorageLaws, DigestLaws, Secure, flags_read, opened, is_success-false, Name-discrete,
}
use frameworks_security.Ta.{close_after, with_object, write_front, store_object, touch_object}
use frameworks_security.Ta.Laws.{close-opened, store_object-Stores, touch_object_lem}
use frameworks_security.Ta.Reading.{with_object_cases}
use frameworks_security.Pin.{
  pin_object, types_output, types_buffer, types_session, digest_result, hash_end, digest_with,
  digest_pin, pin_get_sha256, check_pin, pin_store, pin_verify, pin_change, replace_pin, pin_check,
  invoke_command, cmd_store, cmd_verify, cmd_change, cmd_getsha256, cmd_chk, cmd_del,
}
use frameworks_security.Ta.{Outcome, set_buffer, compare_bytes}
use frameworks_security.Pin.Digest.{free-allocated, hash_end-eq}

module _ (t : Tee) where
  open t use {World, view}

  -- The state and the value parameters are as before, if the command returned.
  abbrev pub Keeps : Params → World → Outcome t → Type 0
  Keeps ps w none = Unit
  Keeps ps w (some (_, ps', w')) = (ps'.p0 ≡ ps.p0) × (view w' ≡ view w)

  -- Every object but one is as before, and so are the open handles and operations.
  abbrev pub Spares : Name → World → Outcome t → Type 0
  Spares n w none = Unit
  Spares n w (some (_, _, w')) =
      ((m : Name) → m ≢ n → (view w').objects m ≡ (view w).objects m)
      × ((view w').handles ≡ (view w).handles)
      × ((view w').digests ≡ (view w).digests)

  Keeps-Spares :
      (n : Name) (ps : Params) (w : World) (result : Outcome t)
      → Keeps ps w result
      → Spares n w result
  Keeps-Spares n ps w none h = tt
  Keeps-Spares n ps w (some (r, ps', w')) h = (
    λ m _. ap (λ (s : Secure). s.objects m) h.1,
    ap (λ (s : Secure). s.handles) h.1,
    ap (λ (s : Secure). s.digests) h.1,
  )

  module _ (laws : StorageLaws t) where
    with_object-Keeps :
        (n : Name) (size : ℕ) (ps : Params) (w : World) (body : List ℕ → World → Outcome t)
        → ((bytes : List ℕ) (w2 : World) → Keeps ps w2 (body bytes w2))
        → Keeps ps w (with_object t n size body ps w)
    with_object-Keeps n size ps w body keeps = elim (with_object_cases t laws n size ps w body) [
      | inl (r, w', bad, same, e) ↦ rw e (refl, same)
      | inr (stored, obj, w2, there, fresh, e, ran) ↦ rw ran (
          closed (body (take size stored) w2) obj w2 (0 + length (take size stored))
            (keeps (take size stored) w2) fresh e)
    ]
      where
        closed :
            (result : Outcome t) (obj : ℕ) (w2 : World) (p : ℕ)
            → Keeps ps w2 result
            → (view w).handles obj ≡ none
            → view w2 ≡ record (view w) {
              handles = put ℕ_discrete (view w).handles obj (some (opened n flags_read p));
            }
            → Keeps ps w (close_after t obj result)
        closed none obj w2 p k fresh e = tt
        closed (some (r, ps', w3)) obj w2 p k fresh e =
            (k.0, close-opened t laws (view w) obj (opened n flags_read p) w3 fresh (k.1 ∙ e))

    check_pin-Keeps :
        (expected : ℕ) (ps : Params) (bytes : List ℕ) (w : World)
        → Keeps ps w (check_pin t expected ps bytes w)
    unfolding check_pin
    check_pin-Keeps expected ps bytes w =
        elim (Option-cases (compare_bytes expected ps.p1.buffer bytes)) [
          | inl fault ↦ rw (fault, check_pin) tt
          | inr (r, e) ↦ rw (e, check_pin) (refl, refl)
        ]

    store_object-Spares :
        (n : Name) (bytes : List ℕ) (ps : Params) (w w0 : World)
        → view w ≡ view w0
        → Spares n w0 (some ((store_object t n bytes w).0, ps, (store_object t n bytes w).1))
    store_object-Spares n bytes ps w w0 same = elim (store_object-Stores t laws n bytes w) [
      | inl (_, e) ↦ rw (e, same) (λ m other. put_ne Name-discrete _ n _ m other, refl, refl)
      | inr (_, inl e) ↦ rw (e, same) (λ m _. refl, refl, refl)
      | inr (_, inr e) ↦ rw (e, same) (λ m other. put_ne Name-discrete _ n _ m other, refl, refl)
    ]

    replace_pin-Spares :
        (ps : Params) (w : World) (result : Outcome t)
        → Keeps ps w result
        → Spares (pin_object ps.p0.a) w (replace_pin t result)
    unfolding replace_pin
    replace_pin-Spares ps w none h = tt
    replace_pin-Spares ps w (some (r, ps', w1)) h = elim (Bool-cases (is_success r)) [
      | inl good ↦
          rw (good, ← h.0)
            (store_object-Spares (pin_object ps'.p0.a) (drop ps'.p0.b ps'.p1.buffer) ps' w1 w h.1)
      | inr bad ↦ rw bad (Keeps-Spares (pin_object ps.p0.a) ps w (some (r, ps', w1)) h)
    ]

    module _ (sha256 : List ℕ → List ℕ) (digest : DigestLaws t sha256) where
      digest_pin-Keeps :
          (ps : Params) (bytes : List ℕ) (w : World) → Keeps ps w (digest_pin t ps bytes w)
      unfolding digest_pin digest_with
      digest_pin-Keeps ps bytes w = elim (Bool-cases (length bytes == 0)) [
        | inl empty ↦ rw empty (refl, refl)
        | inr more ↦ rw more (elim (digest.allocate_law w) [
          | inr (null, (bad, same)) ↦ rw (is_success-false r.0 bad, null, hash_end) (refl, same)
          | inl (good, live, fresh, e) ↦ rw good (
              taken r.1 (t.digest_update r.1 bytes r.2) bytes live fresh (
                digest.update_law r.1 bytes [] r.2 (rw e (put_self ℕ_discrete _ r.1 _))
                ∙ rw (e, put-put)))
        ])
      ]
        where
          r : TeeResult × ℕ × World
          r = t.allocate_digest w

          written :
              (res : TeeResult) (out : List ℕ) (op : ℕ) (w2 : World) (d : List ℕ)
              → op ≢ 0
              → (view w).digests op ≡ none
              → view w2 ≡ record (view w) { digests = put ℕ_discrete (view w).digests op (some d) }
              → Keeps ps w (hash_end t op (digest_result t ps (res, out, w2)))
          written res out op w2 d live fresh e =
              elim (Option-cases (write_front out ps.p1.buffer)) [
                | inl fault ↦ rw (fault, digest_result, hash_end) tt
                | inr (buffer, done) ↦
                    rw (done, digest_result)
                      (subst (Keeps ps w)
                        (sym (
                          hash_end-eq t sha256 digest op
                            (if length out == 32 then res else error_generic) (set_buffer ps buffer)
                            w2 live))
                        (refl, free-allocated t sha256 digest w w2 op d fresh e))
              ]

          taken :
              (op : ℕ) (w1 : World) (d : List ℕ)
              → op ≢ 0
              → (view w).digests op ≡ none
              → view w1 ≡ record (view w) { digests = put ℕ_discrete (view w).digests op (some d) }
              → Keeps ps w (hash_end t op (digest_result t ps (t.digest_do_final op 32 w1)))
          taken op w1 d live fresh e =
              elim (digest.final_law op 32 d w1 (rw e (put_self ℕ_discrete _ op _))) [
                | inl (good, out, e2) ↦ written f.0 f.1 op f.2 [] live fresh (rw (e2, e, put-put))
                | inr (room, (bad, same)) ↦ written f.0 f.1 op f.2 d live fresh (same ∙ e)
              ]
            where
              f : TeeResult × List ℕ × World
              f = t.digest_do_final op 32 w1

      module _ (types : ParamTypes) (ps : Params) (w : World) where
        -- The object that a command is about.
        abbrev target : Name
        target = pin_object ps.p0.a

        refused-Spares : Spares target w (some (error_bad_parameters, ps, w))
        refused-Spares = Keeps-Spares target ps w (some (error_bad_parameters, ps, w)) (refl, refl)

        reads-Spares :
            (body : List ℕ → World → Outcome t)
            → ((bytes : List ℕ) (w2 : World) → Keeps ps w2 (body bytes w2))
            → Spares target w (with_object t target 32 body ps w)
        reads-Spares body keeps =
            Keeps-Spares target ps w (with_object t target 32 body ps w)
              (with_object-Keeps target 32 ps w body keeps)

        pin_store-Spares : Spares target w (pin_store t types ps w)
        unfolding pin_store
        pin_store-Spares =
            if_cases (Spares target w) (types_match types types_buffer)
              (λ _. store_object-Spares target ps.p1.buffer ps w w refl) (λ _. refused-Spares)

        pin_verify-Spares : Spares target w (pin_verify t types ps w)
        unfolding pin_verify
        pin_verify-Spares =
            if_cases (Spares target w) (types_match types types_buffer)
              (λ _.
                reads-Spares (check_pin t (length ps.p1.buffer) ps)
                  (check_pin-Keeps (length ps.p1.buffer) ps))
              (λ _. refused-Spares)

        pin_change-Spares : Spares target w (pin_change t types ps w)
        unfolding pin_change
        pin_change-Spares =
            if_cases (Spares target w) (types_match types types_buffer)
              (λ _.
                replace_pin-Spares ps w (with_object t target 32 (check_pin t ps.p0.b ps) ps w) (
                  with_object-Keeps target 32 ps w (check_pin t ps.p0.b ps)
                    (check_pin-Keeps ps.p0.b ps)))
              (λ _. refused-Spares)

        pin_get_sha256-Spares : Spares target w (pin_get_sha256 t types ps w)
        unfolding pin_get_sha256
        pin_get_sha256-Spares =
            if_cases (Spares target w) (types_match types types_output)
              (λ _. reads-Spares (digest_pin t ps) (digest_pin-Keeps ps)) (λ _. refused-Spares)

        pin_check-Spares : Spares target w (pin_check t types ps w)
        unfolding pin_check
        pin_check-Spares =
            if_cases (Spares target w) (types_match types types_session)
              (λ _.
                Keeps-Spares target ps w
                  (some ((touch_object t target w).0, ps, (touch_object t target w).1))
                  (refl, (touch_object_lem t laws target w).0))
              (λ _. refused-Spares)

        -- A command other than the deletion, if it makes no access outside a buffer, changes no
        -- object but the PIN of the store that its first value selects, and leaves no handle and no
        -- operation open.
        pub invoke_command-Spares :
            (cmd : ℕ) → cmd ≢ cmd_del → Spares target w (invoke_command t cmd types ps w)
        unfolding invoke_command
        invoke_command-Spares cmd other =
            if_cases (Spares target w) (cmd == cmd_store) (λ _. pin_store-Spares)
              λ _.
                if_cases (Spares target w) (cmd == cmd_verify) (λ _. pin_verify-Spares)
                  λ _.
                    if_cases (Spares target w) (cmd == cmd_change) (λ _. pin_change-Spares)
                      λ _.
                        if_cases (Spares target w) (cmd == cmd_getsha256)
                          (λ _. pin_get_sha256-Spares)
                          λ _.
                            if_cases (Spares target w) (cmd == cmd_chk) (λ _. pin_check-Spares)
                              λ _.
                                if_cases (Spares target w) (cmd == cmd_del)
                                  (λ e. absurd (ground arith)) λ _. refused-Spares
