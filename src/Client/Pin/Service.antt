-- ===== src/Client/Pin/Service.antt =====
-- ca/pin/pin_ca_api.c together with ta/pin/pin_ta.c: the service that a program gets.
use frameworks_security.Base.{
  ℕ, ◌+◌, ◌%◌, ◌^◌, ◌≡◌, refl, ◌<◌, inl, inr, Bool, false, Option, some, List, ◌++◌, length, arith,
}
use frameworks_security.Tee.{Tee, TeeResult, is_success, is_success-false, Params, StorageLaws}
use frameworks_security.Teec.{Teec, TeecLaws, mem_input}
use frameworks_security.Pin.{
  types_buffer, types_session, invoke_command, cmd_store, cmd_verify, cmd_change, cmd_chk, cmd_del,
}
use frameworks_security.Client.{Called, truth}
use frameworks_security.Client.Answer.{Ends, unit_answer, call-Ends, call_memory-Ends}
use frameworks_security.Client.Pin.{
  flag_params, pin_store, pin_verify, pin_change, pin_is_exist, pin_delete, pin_call, value_call,
  pin_params, one_pin, two_pins,
}
use frameworks_security.Client.Pin.Answers.{
  pin_app-opens, pin_app, pins, Answers, store-Answers, verify-Answers, change-Answers,
  is_exist-Answers, delete-Answers,
}
use frameworks_security.Client.Pin.Fill.{one_pin-whole, two_pins-whole}
use frameworks_security.Client.Pin.Spec.{
  PinRequest, store, verify, change, is_exist, delete, PinStep, failed,
}

-- The requests with which a service is asked, each with the lengths of its PINs.
module _ {t : Tee} (c : Teec t) where
  open c use {World, held, tee}

  unfoldable pub run_request : PinRequest → World → Option (Bool × World)
  run_request (store d pin) w = truth (pin_store c d pin (length pin) w)
  run_request (verify d pin) w = truth (pin_verify c d pin (length pin) w)
  run_request (change d old new) w = truth (pin_change c d old (length old) new (length new) w)
  run_request (is_exist d) w = pin_is_exist c d w
  run_request (delete d) w = truth (pin_delete c d w)

  -- The lengths of the two PINs of a change have a sum that fits 32 bits.
  abbrev pub Fits : PinRequest → Type 0
  Fits (change d old new) = length old + length new < 2 ^ 32
  Fits _ = Unit

  abbrev pub Refines : PinRequest → World → Option (Bool × World) → Type 0
  Refines q w out =
      (b : Bool) × (w' : World) × (out ≡ some (b, w'))
      × (held w' ≡ held w)
      × PinStep q b (pins (t.view (tee w))) (pins (t.view (tee w')))

module _ {t : Tee} (c : Teec t) (laws : StorageLaws t) (Fallible : Type 0)
    (client : TeecLaws c (pin_app t) Fallible) where
  open c use {World, held, tee}

  refined :
      (q : PinRequest) (w : World) (out : Called World Unit)
      {o : Option (TeeResult × Params × t.World)} (answers : Answers t laws q (tee w) o)
      → Ends c Fallible tt w (some (answers.0, tt, answers.2)) out
      → Refines c q w (truth out)
  refined q w out (r, ps, tw, _, step) (inl (r0, w', e, (_, bad, (kept, same)))) =
      (false, w', rw (e, is_success-false r0 bad) refl, kept, rw same (failed q _))
  refined q w out (r, ps, tw, _, step) (inr (w', e, kept, reached)) =
      (is_success r, w', rw e refl, kept, rw reached step)

  pub pin_call-Ends :
      (cmd : ℕ) (d : Bool) (pin : List ℕ) (w : World) {r : TeeResult} {ps : Params} {tw : t.World}
      → invoke_command t cmd types_buffer (pin_params d 0 pin) (tee w) ≡ some (r, ps, tw)
      → Ends c Fallible tt w (some (r, tt, tw)) (pin_call c cmd d pin (length pin) w)
  unfolding pin_call
  pin_call-Ends cmd d pin w e =
      call_memory-Ends c Fallible tt (pin_app t) client (pin_app-opens t) cmd types_buffer
        (λ _. some tt) w mem_input (length pin) (one_pin d pin (length pin)) (pin_params d 0 pin) _
        (one_pin-whole d pin) (unit_answer e)

  pin_call-Refines :
      (q : PinRequest) (cmd : ℕ) (d : Bool) (pin : List ℕ) (w : World)
      → Answers t laws q (tee w) (invoke_command t cmd types_buffer (pin_params d 0 pin) (tee w))
      → Refines c q w (truth (pin_call c cmd d pin (length pin) w))
  pin_call-Refines q cmd d pin w answers =
      refined q w _ answers (pin_call-Ends cmd d pin w answers.3)

  value_call-Refines :
      (q : PinRequest) (cmd : ℕ) (d : Bool) (w : World)
      → Answers t laws q (tee w) (invoke_command t cmd types_session (flag_params d) (tee w))
      → Refines c q w (truth (value_call c cmd d w))
  unfolding value_call
  value_call-Refines q cmd d w answers = refined q w _ answers (
      call-Ends c Fallible tt (pin_app t) client (pin_app-opens t) cmd types_session (λ _. some tt)
        w (flag_params d) _ (unit_answer answers.3))

  change-Refines :
      (d : Bool) (old new : List ℕ) (w : World)
      → length old + length new < 2 ^ 32
      → Refines c (change d old new) w (truth (pin_change c d old (length old) new (length new) w))
  unfolding pin_change
  change-Refines d old new w fits =
      let answers = change-Answers t laws d old new (tee w) in
      refined (change d old new) w _ answers (
        call_memory-Ends c Fallible tt (pin_app t) client (pin_app-opens t) cmd_change types_buffer
          (λ _. some tt) w mem_input ((length old + length new) % 2 ^ 32)
          (two_pins d old (length old) new (length new)) (pin_params d (length old) (old ++ new)) _
          (λ shm sized. two_pins-whole d old new shm (omega (arith, sized, fits)))
          (unit_answer answers.3))

  -- Each request that a program makes of the PIN service, where the lengths of the two PINs of a
  -- change have a sum that fits 32 bits, returns, gives back all that the client took, and is a
  -- step of the abstract service with its two slots, whether or not calls of the client or of the
  -- device fail.
  pub run_request-Refines :
      (q : PinRequest) (w : World) → Fits c q → Refines c q w (run_request c q w)
  unfolding run_request pin_store pin_verify pin_is_exist pin_delete
  run_request-Refines (store d pin) w fits =
      pin_call-Refines (store d pin) cmd_store d pin w (store-Answers t laws d pin (tee w))
  run_request-Refines (verify d pin) w fits =
      pin_call-Refines (verify d pin) cmd_verify d pin w (verify-Answers t laws d pin (tee w))
  run_request-Refines (change d old new) w fits = change-Refines d old new w fits
  run_request-Refines (is_exist d) w fits =
      value_call-Refines (is_exist d) cmd_chk d w (is_exist-Answers t laws d (tee w))
  run_request-Refines (delete d) w fits =
      value_call-Refines (delete d) cmd_del d w (delete-Answers t laws d (tee w))
