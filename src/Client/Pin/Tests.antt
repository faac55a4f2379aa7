-- ===== src/Client/Pin/Tests.antt =====
-- The properties of the PIN service at concrete inputs: a client in memory over a device whose store
-- takes writes of up to 64 bytes.
use frameworks_security.Base.{
  put, ℕ_discrete, memcpy, bytes_eq, ℕ, ◌≡◌, refl, true, false, some, none, List, [], ◌∷◌, arith,
}
use frameworks_security.Tee.{types_match, Name-discrete, success}
use frameworks_security.Tee.Memory.{create, write, close, device, device-storage, empty}
use frameworks_security.Ta.Device.{device-Reliable}
use frameworks_security.Teec.{Teec}
use frameworks_security.Teec.Local.{
  with_answer, new_session, new_memory, new_context, old_session, old_memory, old_context, Local,
  client, client-TeecLaws, start,
}
use frameworks_security.Ta.{store_object}
use frameworks_security.Pin
use frameworks_security.Pin.{open_session, invoke_command, pin_object}
use frameworks_security.Client.{Called, call_memory}
use frameworks_security.Client.Pin.{pin_store, pin_verify}
use frameworks_security.Client.Pin.Answers.{pin_app, pins}
use frameworks_security.Client.Pin.Spec.{store, verify, change, is_exist}
use frameworks_security.Client.Pin.Service.{run_request, Refines, run_request-Refines}
use frameworks_security.Client.Pin.Session.{run_requests, stored_pin_decides, empty_slot_refuses}

abbrev pin_1234 : List ℕ
pin_1234 = 0x31 ∷ 0x32 ∷ 0x33 ∷ 0x34 ∷ []

abbrev begin : Local device
begin = start device (empty 64)

abbrev service : Teec device
service = client device (pin_app device)

-- The world after pin_store, or the first one if there is none.
abbrev world_of : Called (Local device) Unit → Local device
world_of none = begin
world_of (some (_, _, w)) = w

abbrev after_store : Local device
after_store = world_of (pin_store service true pin_1234 4 begin)

stored : pin_store service true pin_1234 4 begin ≡ some (success, tt, after_store)
unfolding pin_store call_memory memcpy open_session types_match with_answer invoke_command
    Pin.pin_store store_object create write close put ℕ_discrete new_session new_memory new_context
    old_session old_memory old_context Name-discrete pin_object
stored = refl

run_request-Refines_example :
    Refines service
      (change true pin_1234 (0x35 ∷ []))
      begin
      (run_request service (change true pin_1234 (0x35 ∷ [])) begin)
run_request-Refines_example =
    run_request-Refines service device-storage ⊥ (client-TeecLaws device (pin_app device))
      (change true pin_1234 (0x35 ∷ [])) begin (omega arith)

-- Nothing was stored in the store that can be wiped.
empty_slot_refuses_example :
    (w' : Local device) × (run_requests service (store false pin_1234 ∷ is_exist true ∷ []) begin
      ≡ some w')
    × (w'.held ≡ begin.held)
    × (pins w'.tee.secure true ≡ none)
    × ((guess : List ℕ)
        → (w2 : Local device) × (run_request service (verify true guess) w' ≡ some (false, w2)))
empty_slot_refuses_example =
    empty_slot_refuses service device-storage ⊥ (client-TeecLaws device (pin_app device)) true
      (store false pin_1234 ∷ is_exist true ∷ []) begin (tt, (λ e. cc), (tt, tt, tt)) refl

-- The PIN 1234 was stored, and 1234 is guessed.
stored_pin_decides_example :
    (w2 : Local device) × (w2.held ≡ begin.held)
    × (w2.tee.secure ≡ after_store.tee.secure)
    × (pin_verify service true pin_1234 4 after_store ≡ some (success, tt, w2))
unfolding bytes_eq
stored_pin_decides_example =
    stored_pin_decides service device-storage (client-TeecLaws device (pin_app device))
      device-Reliable true pin_1234 pin_1234 begin after_store stored
