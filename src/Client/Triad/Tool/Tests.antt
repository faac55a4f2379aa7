-- ===== src/Client/Triad/Tool/Tests.antt =====
-- The tool of ca/triad/triad_tool.c on a client in memory.
use frameworks_security.Base.{
  ℕ, zero, suc, ◌+◌, ◌*◌, ◌/◌, ◌%◌, ◌^◌, ◌≡◌, ◌<◌, refl, sym, ap, ◌∙◌, true, some, List, [], ◌∷◌,
  length, replicate, memcpy, put, ℕ_discrete, codes, c_string, bytes_eq, arith,
}
use native.Mathlib.Numerals.{unary_clauses}
use mathlib.Core.List.{append-nil}
use frameworks_security.Decimal.{decimal, digits, digits-decimal, is_digit}
use frameworks_security.Tee.{other, types_match, Name-discrete}
use frameworks_security.Tee.Memory.{device, device-storage, create, write, close}
use frameworks_security.Ta.{store_object}
use frameworks_security.Ta.Device.{device-Reliable}
use frameworks_security.Teec.{Teec}
use frameworks_security.Teec.Local.{
  Local, with_answer, new_session, new_memory, new_context, old_session, old_memory, old_context,
}
use frameworks_security.Triad.{open_session, store_key, store_did}
use frameworks_security.Triad.Dispatch.{invoke_command}
use frameworks_security.Client.{call_memory}
use frameworks_security.Client.Triad.{store_call, triad_store_key, triad_store_did}
use frameworks_security.Client.Triad.Local.{
  no_mac, no_ae, little_endian, begin, service, service-laws, world_of,
}
use frameworks_security.Client.Triad.Tool.{
  Numbers, did_bytes, did_text, did_string, key_data, set_success, set_failed, main,
}
use frameworks_security.Client.Triad.Tool.Session.{
  program, tool_key_round_trip, tool_did_round_trip,
}
use frameworks_security.Client.Triad.Tool.Status.{main_ignores_device}

-- Numbers with the low byte first.
low_first : ℕ → ℕ → List ℕ
low_first zero n = []
low_first (suc k) n = n % 256 ∷ low_first k (n / 256)

load : List ℕ → ℕ
load [] = 0
load (b ∷ bs) = b + 256 * load bs

length-low_first : (k n : ℕ) → length (low_first k n) ≡ k
unfolding low_first
length-low_first zero n = refl
length-low_first (suc k) n = ap suc (length-low_first k (n / 256))

quotient_bound : (p n : ℕ) → n < p * 256 → n / 256 < p
quotient_bound p n h = omega arith

load-low_first : (k n : ℕ) → n < 256 ^ k → load (low_first k n) ≡ n
unfolding low_first load
load-low_first zero n h = omega (arith, h)
load-low_first (suc k) n h =
    let high : load (low_first k (n / 256)) ≡ n / 256 =
      load-low_first k (n / 256) (quotient_bound (256 ^ k) n (simp unary_clauses at h)) in
    rw high (omega arith)

spelled : (n : ℕ) → n < 2 ^ 64 → (digits 0 (decimal 20 n)).0 ≡ n
unfolding digits
spelled n small =
    ap (λ (s : List ℕ). (digits 0 s).0) (sym (append-nil (decimal 20 n)))
    ∙ ap (λ (r : ℕ × List ℕ). r.0) (digits-decimal 20 n [] (omega arith))

abbrev numbers : Numbers
numbers = record {
  strtoull = λ text. (digits 0 text).0;
  bytes_of = low_first 8;
  load64 = load;
  strtoull_law = λ n small. spelled n small;
  bytes_of_law = λ n. length-low_first 8 n;
  load64_law = λ n small. load-low_first 8 n small;
}

abbrev letters : List ℕ
letters = replicate 16 b'7'

abbrev key_args : List (List ℕ)
key_args = program ∷ codes "set" ∷ codes "key" ∷ letters ∷ []

abbrev key_world : Local device
key_world = world_of (triad_store_key service letters 16 begin)

sets_key : main numbers service key_args begin ≡ some (true, set_success ∷ [], key_world)
unfolding main c_string bytes_eq triad_store_key call_memory memcpy open_session types_match
    with_answer invoke_command store_object create write close put ℕ_discrete new_session new_memory
    new_context old_session old_memory old_context Name-discrete store_call store_key
sets_key = refl

tool_key_round_trip_example :
    (w2 : Local device) × (main numbers service (program ∷ codes "get" ∷ codes "key" ∷ []) key_world
      ≡ some (true, key_data letters ∷ [], w2))
    × (w2.held ≡ begin.held)
    × (w2.tee.secure ≡ key_world.tee.secure)
tool_key_round_trip_example =
    tool_key_round_trip numbers no_mac no_ae little_endian 0 service device-storage service-laws
      device-Reliable letters begin key_world (omega arith) refl sets_key

abbrev did_world : Local device
did_world = world_of (triad_store_did service (low_first 8 771) 8 begin)

sets_did :
    main numbers service (program ∷ codes "set" ∷ codes "did" ∷ decimal 20 771 ∷ []) begin
    ≡ some (
      true,
      did_string (decimal 20 771) 771 ∷ did_bytes (low_first 8 771) ∷ set_success ∷ [],
      did_world,
    )
unfolding main c_string bytes_eq triad_store_did call_memory memcpy open_session types_match
    with_answer invoke_command store_object create write close put ℕ_discrete new_session new_memory
    new_context old_session old_memory old_context Name-discrete store_call store_did low_first
    decimal digits is_digit
sets_did = refl

tool_did_round_trip_example :
    (w2 : Local device) × (main numbers service (program ∷ codes "get" ∷ codes "did" ∷ []) did_world
      ≡ some (true, did_bytes (low_first 8 771) ∷ did_text (decimal 20 771) ∷ [], w2))
    × (w2.held ≡ begin.held)
    × (w2.tee.secure ≡ did_world.tee.secure)
tool_did_round_trip_example =
    tool_did_round_trip numbers no_mac no_ae little_endian 0 service device-storage service-laws
      device-Reliable 771 begin did_world (omega arith) (omega arith) sets_did

-- A client that has no context to give.
abbrev dead : Teec device
dead = record service { initialize_context = λ w. (other 1, 0, w) }

fails : main numbers dead key_args begin ≡ some (true, set_failed ∷ [], begin)
unfolding main c_string bytes_eq triad_store_key call_memory store_call
fails = refl

main_ignores_device_example : true ≡ true
main_ignores_device_example =
    main_ignores_device numbers service dead key_args begin key_world begin begin true true
      (set_success ∷ []) (set_failed ∷ []) sets_key fails
