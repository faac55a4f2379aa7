-- ===== src/Client/Triad/Tool/Session.antt =====
-- ca/triad/triad_tool.c with ca/triad/triad_ca_api.c and ta/triad/triad_ta.c: what the tool prints of the
-- key and the identity that it has stored.
use frameworks_security.Base.{
  ℕ, ◌==◌, ◌≡◌, ◌<◌, ◌^◌, refl, sym, ◌∙◌, Bool, true, false, none, some, List, [], ◌∷◌, length,
  replicate, Lacks, c_string, c_string-all, codes, take_all, bytes_eq, arith,
}
use frameworks_security.Decimal.{decimal, decimal-Lacks, length-decimal}
use frameworks_security.Tee.{
  Tee, success, error_generic, error_bad_parameters, error_security, other, StorageLaws,
}
use frameworks_security.Ta.Laws.{Reliable}
use frameworks_security.Teec.{Teec, TeecLaws}
use frameworks_security.Triad.Hmac.{Mac}
use frameworks_security.Triad.Gcm.{Ae}
use frameworks_security.Triad.Header.{Platform}
use frameworks_security.Client.{Called}
use frameworks_security.Client.Triad.{triad_store_did, triad_store_key}
use frameworks_security.Client.Triad.Session.{triad_app, triad_key_round_trip, triad_did_round_trip}
use frameworks_security.Client.Triad.Tool.{
  Numbers, Line, did_bytes, did_text, did_string, key_data, set_success, set_failed, print_u64,
  reported, printed_first, set_did, set_key, get_did, get_key, main, Run,
}

abbrev pub program : List ℕ
program = codes "ca_triad_tool"

print_u64-decimal : (n : ℕ) → print_u64 n ≡ decimal 20 n
unfolding print_u64
print_u64-decimal n = take_all 31 (decimal 20 n) (omega (arith, length-decimal 20 n))

module _ (num : Numbers) {t : Tee} (c : Teec t) where
  open c use {World}

  -- The lines of a set that was done.
  reported-done :
      (o : Called World Unit) (w1 : World)
      → reported num c (λ _. set_success ∷ []) (set_failed ∷ []) o
        ≡ some (true, set_success ∷ [], w1)
      → o ≡ some (success, tt, w1)
  unfolding reported
  reported-done none w1 e = absurd (cc)
  reported-done (some (success, tt, w)) w1 e = cc
  reported-done (some (error_generic, tt, w)) w1 e = absurd (cc)
  reported-done (some (error_bad_parameters, tt, w)) w1 e = absurd (cc)
  reported-done (some (error_security, tt, w)) w1 e = absurd (cc)
  reported-done (some (other n, tt, w)) w1 e = absurd (cc)

  printed_first-done :
      (a b a' b' : Line) (o : Run num c) (d : Bool) (lines : List Line) (w1 : World)
      → printed_first num c (a ∷ b ∷ []) o ≡ some (d, a' ∷ b' ∷ lines, w1)
      → o ≡ some (d, lines, w1)
  unfolding printed_first
  printed_first-done a b a' b' none d lines w1 e = absurd (cc)
  printed_first-done a b a' b' (some (d', more, w)) d lines w1 e = cc

  main_set_key :
      (key : List ℕ) (w : World)
      → Lacks 0 key
      → length key ≡ 16
      → main num c (program ∷ codes "set" ∷ codes "key" ∷ key ∷ []) w
        ≡ reported num c (λ _. set_success ∷ []) (set_failed ∷ []) (triad_store_key c key 16 w)
  unfolding main set_key bytes_eq c_string
  main_set_key key w k0 size =
      let fits : (length key == 16) ≡ true = ground arith in rw (c_string-all key k0, fits) refl

  main_set_did :
      (n : ℕ) (w : World)
      → 0 < n
      → n < 2 ^ 64
      → main num c (program ∷ codes "set" ∷ codes "did" ∷ decimal 20 n ∷ []) w
        ≡ printed_first num c (did_string (decimal 20 n) n ∷ did_bytes (num.bytes_of n) ∷ []) (
            reported num c
              (λ _. set_success ∷ [])
              (set_failed ∷ [])
              (triad_store_did c (num.bytes_of n) 8 w))
  unfolding main set_did bytes_eq c_string
  main_set_did n w positive small =
      let there : (n == 0) ≡ false = ground arith in
      rw
        (
          c_string-all (decimal 20 n) (decimal-Lacks 0 20 n (omega arith)),
          num.strtoull_law n small,
          there,
        )
        refl

module _ (num : Numbers) {t : Tee} (m : Mac t) (ae : Ae t) (p : Platform) (stack : ℕ) (c : Teec t)
    (laws : StorageLaws t) (client : TeecLaws c (triad_app t m ae p stack) ⊥)
    (rel : Reliable t) where
  open c use {World, held, tee}

  -- Where no call of the client fails, and no opening or reading on the device: after the tool has
  -- reported that a key of 16 bytes without a zero was set, `get key` returns 0 and prints that key;
  -- nothing stored changes, and all that was taken from the client is given back.
  pub tool_key_round_trip :
      (key : List ℕ) (w w1 : World)
      → Lacks 0 key
      → length key ≡ 16
      → main num c (program ∷ codes "set" ∷ codes "key" ∷ key ∷ []) w
        ≡ some (true, set_success ∷ [], w1)
      → (w2 : World) × (main num c (program ∷ codes "get" ∷ codes "key" ∷ []) w1
          ≡ some (true, key_data key ∷ [], w2))
        × (held w2 ≡ held w)
        × (t.view (tee w2) ≡ t.view (tee w1))
  unfolding main get_key reported bytes_eq c_string
  tool_key_round_trip key w w1 k0 size done =
      let stored = reported-done num c _ w1 (sym (main_set_key num c key w k0 size) ∙ done) in
      let (w2, e, kept, same) =
        triad_key_round_trip m ae p stack c laws client rel key (replicate 16 0) w w1 size refl
          stored in
      (w2, rw e refl, kept, same)

  -- Where no call of the client fails, and no opening or reading on the device: after the tool has
  -- reported that the identity with the decimal digits of a positive number of 64 bits was set,
  -- `get did` returns 0 and prints the bytes of the number and the same digits; nothing stored
  -- changes, and all that was taken from the client is given back.
  pub tool_did_round_trip :
      (n : ℕ) (w w1 : World)
      → 0 < n
      → n < 2 ^ 64
      → main num c (program ∷ codes "set" ∷ codes "did" ∷ decimal 20 n ∷ []) w
        ≡ some
            (true, did_string (decimal 20 n) n ∷ did_bytes (num.bytes_of n) ∷ set_success ∷ [], w1)
      → (w2 : World) × (main num c (program ∷ codes "get" ∷ codes "did" ∷ []) w1
          ≡ some (true, did_bytes (num.bytes_of n) ∷ did_text (decimal 20 n) ∷ [], w2))
        × (held w2 ≡ held w)
        × (t.view (tee w2) ≡ t.view (tee w1))
  unfolding main get_did reported bytes_eq c_string
  tool_did_round_trip n w w1 positive small done =
      let stored = reported-done num c _ w1 (
        printed_first-done num c _ _ _ _ _ true (set_success ∷ []) w1
          (sym (main_set_did num c n w positive small) ∙ done)) in
      let (w2, e, kept, same) =
        triad_did_round_trip m ae p stack c laws client rel (num.bytes_of n) (replicate 8 0) w w1
          (num.bytes_of_law n) refl stored in
      (w2, rw (e, num.load64_law n small, print_u64-decimal n) refl, kept, same)
