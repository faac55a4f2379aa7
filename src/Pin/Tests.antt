-- ===== src/Pin/Tests.antt =====
-- The properties of the PIN application at concrete inputs: a device whose store takes writes of
-- up to 64 bytes and holds the PIN 1234 in the private store, and one that takes none.
use frameworks_security.Base.{
  some, ℕ, ◌≡◌, refl, ◌≢◌, List, [], ◌∷◌, none, arith, put, take, replicate, ℕ_discrete, dec_lt,
  ◌++◌,
}
use frameworks_security.Tee.{
  ParamTypes, TeeResult, success, error_generic, other, Params, Name-discrete, storage_private,
  types_match, flags_create,
}
use frameworks_security.Tee.Memory.{
  Memory, device, device-storage, device-digest, checksum, empty, create, write, close,
}
use frameworks_security.Ta.{store_object}
use frameworks_security.Ta.Device.{device-Reliable, params}
use frameworks_security.Pin.{
  pin_object, types_buffer, types_output, pin_store, pin_verify, pin_change, pin_get_sha256,
  invoke_command, cmd_store, cmd_change,
}
use frameworks_security.Pin.Verify.{pin_verify_sound}
use frameworks_security.Pin.Change.{pin_change_outcome, pin_change_overread, Changes}
use frameworks_security.Pin.Digest.{pin_get_sha256_outcome, with_digest}
use frameworks_security.Pin.Bounds.{Contained, invoke_command-Contained}
use frameworks_security.Pin.Session.{run_requests, run_requests_isolated}
use frameworks_security.Pin.Guesses.{guesses, long_pin, lost_pin}

abbrev pin_1234 : List ℕ
pin_1234 = 0x31 ∷ 0x32 ∷ 0x33 ∷ 0x34 ∷ []

-- The device after Pin_Store of 1234 into the private store.
abbrev stored : Memory
stored = (store_object device (pin_object 0) pin_1234 (empty 64)).1

stored-pin : stored.secure.objects (pin_object 0) ≡ some pin_1234
unfolding store_object pin_object create write close put Name-discrete ℕ_discrete
stored-pin = refl

-- One that takes no write: its store was full after the same command.
abbrev full : Memory
full = record stored { space = 0 }

-- A wrong PIN is refused.
pin_verify_sound_example :
    (r : TeeResult) × (w' : Memory) × (pin_verify device types_buffer
        (params 0 0 (0x31 ∷ []))
        stored
      ≡ some (r, params 0 0 (0x31 ∷ []), w'))
    × (w'.secure ≡ stored.secure)
    × (r ≡ success
        → (types_buffer ≡ types_buffer)
          × (pin : List ℕ) × (stored.secure.objects (pin_object 0) ≡ some pin)
          × (take 32 pin ≡ 0x31 ∷ []))
pin_verify_sound_example =
    pin_verify_sound device device-storage types_buffer (params 0 0 (0x31 ∷ [])) stored

pin_change_outcome_example :
    Changes device device-storage
      (params 0 4 (pin_1234 ++ 0x35 ∷ []))
      stored
      (pin_change device types_buffer (params 0 4 (pin_1234 ++ 0x35 ∷ [])) stored)
pin_change_outcome_example =
    pin_change_outcome device device-storage (params 0 4 (pin_1234 ++ 0x35 ∷ [])) stored
      (omega arith)

-- The request says that the old PIN is four bytes long and carries one of them.
pin_change_overread_example : pin_change device types_buffer (params 0 4 (0x31 ∷ [])) stored ≡ none
pin_change_overread_example =
    pin_change_overread device device-storage (params 0 4 (0x31 ∷ [])) stored device-Reliable
      pin_1234 stored-pin refl (omega arith) refl

abbrev room : Params
room = params 0 0 (replicate 32 0)

pin_get_sha256_outcome_example :
    (r : TeeResult) × (ps' : Params) × (w' : Memory) × (pin_get_sha256 device types_output room
        stored
      ≡ some (r, ps', w'))
    × (w'.secure ≡ stored.secure)
    × (r ≡ success
        → (pin : List ℕ) × (stored.secure.objects (pin_object 0) ≡ some pin)
          × (take 32 pin ≢ [])
          × (ps' ≡ with_digest device checksum device-digest room (omega arith) (take 32 pin)))
pin_get_sha256_outcome_example =
    pin_get_sha256_outcome device checksum device-digest room (omega arith) device-storage stored

-- The PIN is changed to nothing.
invoke_command-Contained_example :
    Contained device
      (pin_object 0)
      stored
      (invoke_command device cmd_change types_buffer (params 0 4 pin_1234) stored)
invoke_command-Contained_example =
    invoke_command-Contained device device-storage checksum device-digest types_buffer
      (params 0 4 pin_1234) stored cmd_change (omega arith) (λ _. omega arith)
      (λ e. absurd (omega (arith, e)))

stored-pin_store :
    pin_store device types_buffer (params 0 0 pin_1234) (empty 64)
    ≡ some (success, params 0 0 pin_1234, stored)
unfolding pin_store store_object create write close types_match dec_lt put ℕ_discrete Name-discrete
    pin_object
stored-pin_store = refl

abbrev long : List ℕ
long = replicate 40 0x31

abbrev stored_long : Memory
stored_long = (store_object device (pin_object 0) long (empty 64)).1

stored_long-pin_store :
    pin_store device types_buffer (params 0 0 long) (empty 64)
    ≡ some (success, params 0 0 long, stored_long)
unfolding pin_store store_object create write close types_match dec_lt put ℕ_discrete Name-discrete
    pin_object
stored_long-pin_store = refl

-- Two guesses, one of them with the wrong parameter types.
abbrev some_guesses : List (ParamTypes × Params)
some_guesses = (types_buffer, params 0 0 pin_1234) ∷ (types_output, params 0 0 []) ∷ []

long_pin_example :
    (w2 : Memory) × (w3 : Memory) × (run_requests device device-storage
        (guesses device-storage some_guesses)
        stored_long
      ≡ some w2)
    × (long ≡ long
        → pin_verify device types_buffer (params 0 0 long) w2
          ≡ some (error_generic, params 0 0 long, w3))
    × (long ≡ take 32 long
        → pin_verify device types_buffer (params 0 0 long) w2 ≡ some (success, params 0 0 long, w3))
long_pin_example =
    long_pin device device-storage device-Reliable some_guesses (params 0 0 long) (params 0 0 long)
      refl (empty 64) stored_long stored_long-pin_store (omega arith)

failing : (r : TeeResult) → r ≡ other 2 → r ≢ success
failing r e h = cc

lost_pin_example :
    (r : TeeResult) × (w' : Memory) × (w2 : Memory) × (w3 : Memory) × (pin_store device types_buffer
        (params 0 0 long)
        full
      ≡ some (r, params 0 0 long, w'))
    × (r ≢ success)
    × (run_requests device device-storage (guesses device-storage some_guesses) w' ≡ some w2)
    × (pin_verify device types_buffer (params 0 0 []) w2 ≡ some (success, params 0 0 [], w3))
unfolding create write put ℕ_discrete Name-discrete store_object close pin_object
lost_pin_example =
    lost_pin device device-storage device-Reliable some_guesses (params 0 0 long) (params 0 0 [])
      refl full (create (pin_object 0) flags_create full).2 refl (failing _ refl) refl

-- The rest of the store, before and after a PIN is stored and checked.
run_requests_isolated_example :
    stored.secure.objects (record { storage = storage_private; id = [] }) ≡ none
unfolding pin_store store_object create write close types_match dec_lt put ℕ_discrete Name-discrete
    pin_object invoke_command run_requests
run_requests_isolated_example =
    run_requests_isolated device device-storage checksum device-digest
      ((cmd_store, types_buffer, params 0 0 pin_1234) ∷ []) (empty 64) stored
      (record { storage = storage_private; id = [] }) refl (λ e. cc)
