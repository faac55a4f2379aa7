-- ===== src/Client/Pin/Session.antt =====
-- Several calls of ca/pin/pin_ca_api.c in a row.
use frameworks_security.Base.{
  ℕ, ◌≡◌, refl, ◌∙◌, ◌≢◌, inl, inr, Bool, true, false, Option, none, some, List, [], ◌∷◌, length,
  take, put_self, bytes_eq, sym,
}
use frameworks_security.Tee.{Tee, TeeResult, success, Name-discrete, StorageLaws}
use frameworks_security.Ta.Laws.{Reliable, Stores}
use frameworks_security.Ta.Compare.{result_of}
use frameworks_security.Teec.{Teec, TeecLaws}
use frameworks_security.Pin.{types_buffer, invoke_command, cmd_store, cmd_verify}
use frameworks_security.Pin.Store.{pin_store_outcome}
use frameworks_security.Pin.Verify.{pin_verify_decides}
use frameworks_security.Client.{Called}
use frameworks_security.Client.Pin.{pin_store, pin_verify, pin_params}
use frameworks_security.Client.Pin.Answers.{pin_app, slot, pins}
use frameworks_security.Client.Pin.Service.{run_request, Fits, pin_call-Ends, run_request-Refines}
use frameworks_security.Client.Pin.Spec.{
  Pins, with_pin, PinRequest, store, verify, PinStep, failed, stored, emptied, accepted, changed,
  change_emptied, found, deleted,
}

-- Requests whose lengths are in range and of which none stores a PIN in the slot.
abbrev pub NoStore : Bool → PinRequest → Type 0
NoStore d (store e _) = e ≢ d
NoStore d _ = Unit

module _ {t : Tee} (c : Teec t) where
  open c use {World, held, tee}

  unfoldable pub run_requests : List PinRequest → World → Option World
  unfolding run_request
  run_requests [] w = some w
  run_requests (q ∷ qs) w = elim (run_request c q w) [
    | none ↦ none
    | some (_, w') ↦ run_requests qs w'
  ]

  abbrev pub AllNoStore : Bool → List PinRequest → Type 0
  AllNoStore d [] = Unit
  AllNoStore d (q ∷ qs) = Fits c q × NoStore d q × AllNoStore d qs

other_slot : (e d : Bool) (v : Option (List ℕ)) (s : Pins) → e ≢ d → with_pin e v s d ≡ s d
other_slot true true v s h = absurd (h refl)
other_slot true false v s h = refl
other_slot false true v s h = refl
other_slot false false v s h = absurd (h refl)

full_slot :
    (e d : Bool) (v : Option (List ℕ)) (s : Pins) (old : List ℕ)
    → s e ≡ some old
    → s d ≡ none
    → with_pin e v s d ≡ none
full_slot e d v s old there empty = other_slot e d v s (λ same. cc (rw same at there)) ∙ empty

no_pin : (e d : Bool) (s : Pins) → s d ≡ none → with_pin e none s d ≡ none
no_pin true true s h = refl
no_pin true false s h = h
no_pin false true s h = h
no_pin false false s h = refl

step_empty :
    (d b : Bool) (q : PinRequest) (s s' : Pins)
    → PinStep q b s s'
    → NoStore d q
    → s d ≡ none
    → s' d ≡ none
step_empty d b q s s' (failed _ _) allowed empty = empty
step_empty d b q s s' (stored e pin _) allowed empty = other_slot e d _ s allowed ∙ empty
step_empty d b q s s' (emptied e pin _) allowed empty = other_slot e d _ s allowed ∙ empty
step_empty d b q s s' (accepted _ _ _ _ _ _) allowed empty = empty
step_empty d b q s s' (changed e _ _ old _ there _) allowed empty =
    full_slot e d _ s old there empty
step_empty d b q s s' (change_emptied e _ _ old _ there _) allowed empty =
    full_slot e d _ s old there empty
step_empty d b q s s' (found _ _ _ _) allowed empty = empty
step_empty d b q s s' (deleted e _) allowed empty = no_pin e d s empty

guess_fails :
    (d b : Bool) (guess : List ℕ) (s s' : Pins)
    → PinStep (verify d guess) b s s'
    → s d ≡ none
    → b ≡ false
guess_fails d b guess s s' (failed _ _) empty = refl
guess_fails d b guess s s' (accepted _ _ _ _ there _) empty = cc

module _ {t : Tee} (c : Teec t) (laws : StorageLaws t) where
  open c use {World, held, tee}

  module _ (client : TeecLaws c (pin_app t) ⊥) where
    pin_store-slot :
        (d : Bool) (pin : List ℕ) (w w1 : World)
        → pin_store c d pin (length pin) w ≡ some (success, tt, w1)
        → (held w1 ≡ held w) × (pins (t.view (tee w1)) d ≡ some pin)
    unfolding pin_store invoke_command
    pin_store-slot d pin w w1 done =
        elim (pin_store_outcome t laws types_buffer (pin_params d 0 pin) (tee w)) [
          | inl (bad, _) ↦ absurd (bad refl)
          | inr (_, r, tw, e, stores) ↦ elim (pin_call-Ends c laws ⊥ client cmd_store d pin w e) [
            | inl (_, _, _, (never, _, _)) ↦ absurd never
            | inr (w', e1, kept, reached) ↦ finished r tw w' stores (sym e1 ∙ done) kept reached
          ]
        ]
      where
        finished :
            (r : TeeResult) (tw : t.World) (w' : World)
            → Stores t (slot d) pin (tee w) (r, tw)
            → ◌≡◌ {A = Called World Unit} (some (r, tt, w')) (some (success, tt, w1))
            → held w' ≡ held w
            → tee w' ≡ tw
            → (held w1 ≡ held w) × (pins (t.view (tee w1)) d ≡ some pin)
        finished r tw w' (inl (good, e)) same kept reached =
            let here : w' ≡ w1 = cc same in
            (rw (← here) kept, rw (← here, reached, e) (put_self Name-discrete _ (slot d) _))
        finished r tw w' (inr (bad, _)) same kept reached = absurd (bad (cc same))

    -- Where no call of the client fails, and no opening or reading on the device: after a program
    -- stored a PIN with success, a guess gets an answer, which is success if the guess is the first
    -- 32 bytes of the PIN and a generic error otherwise; nothing stored changes, and the client has
    -- given back all that it took.
    pub stored_pin_decides :
        Reliable t
        → (d : Bool) (pin guess : List ℕ) (w w1 : World)
        → pin_store c d pin (length pin) w ≡ some (success, tt, w1)
        → (w2 : World) × (held w2 ≡ held w)
          × (t.view (tee w2) ≡ t.view (tee w1))
          × (pin_verify c d guess (length guess) w1
              ≡ some (result_of (bytes_eq (take 32 pin) guess), tt, w2))
    unfolding pin_verify invoke_command
    stored_pin_decides rel d pin guess w w1 done =
        let (kept, there) = pin_store-slot d pin w w1 done in
        let (tw, same, e) =
          pin_verify_decides t laws rel (pin_params d 0 guess) (tee w1) pin there in
        elim (pin_call-Ends c laws ⊥ client cmd_verify d guess w1 e) [
          | inl (_, _, _, (never, _, _)) ↦ absurd never
          | inr (w2, e2, kept2, reached) ↦ (w2, kept2 ∙ kept, rw reached same, e2)
        ]

  module _ (Fallible : Type 0) (client : TeecLaws c (pin_app t) Fallible) where
    -- A slot without a PIN stays so over any series of requests of which none stores a PIN in it,
    -- with lengths in range: all of them return, the client has given back all that it took, and
    -- then every guess at the slot is refused.
    pub empty_slot_refuses :
        (d : Bool) (qs : List PinRequest) (w : World)
        → AllNoStore c d qs
        → pins (t.view (tee w)) d ≡ none
        → (w' : World) × (run_requests c qs w ≡ some w')
          × (held w' ≡ held w)
          × (pins (t.view (tee w')) d ≡ none)
          × ((guess : List ℕ)
              → (w2 : World) × (run_request c (verify d guess) w' ≡ some (false, w2)))
    unfolding run_requests
    empty_slot_refuses d [] w allowed empty = (
      w,
      refl,
      refl,
      empty,
      λ guess.
          let (b, w2, e, _, step) =
            run_request-Refines c laws Fallible client (verify d guess) w tt in
          (w2, e ∙ rw (guess_fails d b guess _ _ step empty)),
    )
    empty_slot_refuses d (q ∷ qs) w (fits, fine, rest) empty =
        let (b, w1, e, kept, step) = run_request-Refines c laws Fallible client q w fits in
        let (w', e', kept', empty', guesses) =
          empty_slot_refuses d qs w1 rest (step_empty d b q _ _ step fine empty) in
        (w', rw (run_requests, e) e', kept' ∙ kept, empty', guesses)
