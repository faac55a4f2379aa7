-- ===== src/Triad/Tests.antt =====
-- The properties of the TRIAD application at concrete inputs: a device whose store takes writes of up
-- to 64 bytes.
use frameworks_security.Base.{arith, [], ◌∷◌, ℕ, ◌≡◌, refl, List, some, put, ℕ_discrete, replicate}
use frameworks_security.Tee.{error_generic, success, Params, Name-discrete, types_match}
use frameworks_security.Tee.Memory.{Memory, device, device-storage, empty, create, write, close}
use frameworks_security.Ta.{store_object}
use frameworks_security.Ta.Device.{device-Reliable, blank, param}
use frameworks_security.Triad.{types_store, key_object, store_key}
use frameworks_security.Triad.Hmac.{Mac, types_hmac, get_hmac, get_hmac_short}

abbrev buffer_of : List ℕ → Params
buffer_of bytes = record { p0 = param 0 0 bytes; p1 = blank; p2 = blank; p3 = blank }

abbrev key : Params
key = buffer_of (replicate 16 7)

abbrev with_key : Memory
with_key = (store_object device key_object (replicate 16 7) (empty 64)).1

key-stored : store_key device types_store key (empty 64) ≡ some (success, key, with_key)
unfolding store_key types_match store_object create write close put Name-discrete ℕ_discrete
key-stored = refl

-- A message authentication that never gives a handle.
abbrev no_mac : Mac device
no_mac = record {
  allocate_object = λ _ w. (error_generic, 0, w);
  populate = λ _ _ w. (error_generic, w);
  allocate_operation = λ _ w. (error_generic, 0, w);
  set_operation_key = λ _ _ w. (error_generic, w);
  mac_update = λ _ _ w. w;
  mac_final = λ _ _ w. (error_generic, [], w);
  free_object = λ _ w. w;
}

-- A key of one byte.
abbrev with_short_key : Memory
with_short_key = (store_object device key_object (7 ∷ []) (empty 64)).1

short_key : with_short_key.secure.objects key_object ≡ some (7 ∷ [])
unfolding store_object create write close put Name-discrete ℕ_discrete
short_key = refl

abbrev message : Params
message = record { p0 = param 0 0 (replicate 32 1); p1 = param 5 0 []; p2 = blank; p3 = blank }

get_hmac_short_example :
    (w' : Memory) × (get_hmac device no_mac types_hmac message with_short_key
      ≡ some (success, message, w'))
get_hmac_short_example =
    get_hmac_short device no_mac device-storage device-Reliable message with_short_key (7 ∷ [])
      (omega arith) (omega arith) short_key (omega arith)
