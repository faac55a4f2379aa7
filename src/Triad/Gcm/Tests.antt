-- ===== src/Triad/Gcm/Tests.antt =====
-- The round trip at a concrete input: a TEE that keeps operations only, whose cipher text is the plain
-- text and whose tags are zeros.
use frameworks_security.Base.{
  ◌==◌, if◌then◌else◌, ℕ, ◌+◌, ◌*◌, ◌/◌, ◌%◌, ◌≡◌, refl, ◌∙◌, Option, some, none, List, [], ◌∷◌,
  ◌++◌, length, length-replicate, replicate, put, put_self, ℕ_discrete, memcpy, arith,
}
use frameworks_security.Tee.{Tee, TeeResult, success, error_generic}
use frameworks_security.Triad.Header.{read_hdr, slice, Platform, write_hdr}
use frameworks_security.Triad.Gcm.{
  Ae, Mode, mode_encrypt, mode_decrypt, triad_key_ae_encrypt, triad_key_ae_decrypt, crypted,
  written,
}
use frameworks_security.Triad.Gcm.Laws.{Operation, Seal, AeLaws}
use frameworks_security.Triad.Gcm.Wire.{message}
use frameworks_security.Triad.Gcm.RoundTrip.{ae_round_trip}

abbrev Operations : Type 0
Operations = ℕ → Option Operation

-- No storage and no digests.
abbrev plain_tee : Tee
plain_tee = record {
  World = Operations;
  view = λ _. record { objects = λ _. none; handles = λ _. none; digests = λ _. none };
  create_object = λ _ _ w. (error_generic, 0, w);
  open_object = λ _ _ w. (error_generic, 0, w);
  read_object = λ _ _ w. (error_generic, [], w);
  write_object = λ _ _ w. (error_generic, w);
  close_object = λ _ w. w;
  delete_object = λ _ w. (error_generic, w);
  allocate_digest = λ w. (error_generic, 0, w);
  digest_update = λ _ _ w. w;
  digest_do_final = λ _ _ w. (error_generic, [], w);
  free_operation = λ _ w. w;
}

abbrev change : (Operation → Operation) → ℕ → Operations → Option Operation → TeeResult × Operations
change f op w none = (error_generic, w)
change f op w (some o) = (success, put ℕ_discrete w op (some (f o)))

abbrev sealed_with :
    List ℕ → Operations → Option Operation → TeeResult × List ℕ × List ℕ × Operations
sealed_with plain w none = (error_generic, [], [], w)
sealed_with plain w (some o) = (success, plain, replicate (o.tag_bits / 8) 0, w)

abbrev plain_ae : Ae plain_tee
plain_ae = record {
  allocate_operation = λ _ _ w. (error_generic, 0, w);
  allocate_object = λ _ w. (error_generic, 0, w);
  populate = λ _ _ w. (error_generic, w);
  set_operation_key = λ _ _ w. (error_generic, w);
  ae_init =
      λ op iv bits w. change (λ o. record o { iv = iv; tag_bits = bits; aad = [] }) op w (w op);
  ae_update_aad = λ op aad w. (change (λ o. record o { aad = o.aad ++ aad }) op w (w op)).1;
  ae_encrypt_final = λ op plain _ _ w. sealed_with plain w (w op);
  ae_decrypt_final = λ _ cipher _ _ w. (success, cipher, w);
  free_object = λ _ w. w;
}

abbrev plain_seal : Seal
plain_seal key iv aad bits plain = (plain, replicate (bits / 8) 0)

abbrev plain_laws : AeLaws plain_tee plain_ae plain_seal
plain_laws = record {
  operations = λ w. w;
  seal_length = λ key iv aad plain tag_len.
      (refl, length-replicate {A = ℕ} (tag_len * 8 / 8) 0 ∙ omega arith);
  init_law = λ op o iv bits w keyed starts. rw keyed (put_self ℕ_discrete w op _);
  aad_law = λ op o aad w keyed. rw keyed (put_self ℕ_discrete w op _);
  encrypt_law = λ op o plain room tag_room w keyed mode good. rw keyed refl;
  decrypt_law = λ op o plain room w keyed mode fits. (refl, refl);
}

-- The low byte first.
abbrev little_endian : Platform
little_endian = record {
  load16 = λ low high. low + 256 * high;
  low16 = λ n. n % 256;
  high16 = λ n. n / 256 % 256;
  load16_stored = λ n. omega arith;
}

abbrev keyed : Mode → Operation
keyed m = record { mode = m; key = 1 ∷ []; iv = []; tag_bits = 0; aad = [] }

-- Operation 1 encrypts and operation 2 decrypts.
abbrev ready : Operations
ready op =
    if op == 1
    then some (keyed mode_encrypt)
    else if op == 2
    then some (keyed mode_decrypt)
    else none

abbrev after_encrypt : Operations
after_encrypt =
    (plain_ae.ae_encrypt_final 1 (8 ∷ 9 ∷ []) 3 1
      (plain_ae.ae_update_aad 1 (6 ∷ []) (plain_ae.ae_init 1 (5 ∷ []) 8 ready).1)).3

encrypted :
    triad_key_ae_encrypt plain_tee plain_ae little_endian 1
      (message little_endian (5 ∷ []) (6 ∷ []) 1 (8 ∷ 9 ∷ []) (8 ∷ 9 ∷ []))
      (7 ∷ 7 ∷ 7 ∷ 7 ∷ [])
      ready
    ≡ some (success, 8 ∷ 9 ∷ 0 ∷ 7 ∷ [], some 2, after_encrypt)
unfolding triad_key_ae_encrypt read_hdr slice written crypted write_hdr memcpy put ℕ_discrete
encrypted = refl

-- The data 8, 9 with the vector 5, the additional data 6 and a tag of one byte.
ae_round_trip_example :
    (cipher tag rest : List ℕ) × (w3 : Operations) × (8 ∷ 9 ∷ 0 ∷ 7 ∷ [] ≡ cipher ++ (tag ++ rest))
    × (length cipher ≡ 2)
    × (length tag ≡ 1)
    × (triad_key_ae_decrypt plain_tee plain_ae little_endian 2
          (message little_endian (5 ∷ []) (6 ∷ []) 1 (8 ∷ 9 ∷ []) (tag ++ cipher))
          (4 ∷ 4 ∷ 4 ∷ [])
          ready
        ≡ some (success, 8 ∷ 9 ∷ 4 ∷ [], some 2, w3))
ae_round_trip_example =
    ae_round_trip plain_tee plain_ae little_endian plain_seal plain_laws (5 ∷ []) (6 ∷ [])
      (8 ∷ 9 ∷ []) 1 (omega arith, omega arith, omega arith, omega arith) 1 2 (keyed mode_encrypt)
      (keyed mode_decrypt) (7 ∷ 7 ∷ 7 ∷ 7 ∷ []) (8 ∷ 9 ∷ 0 ∷ 7 ∷ []) (4 ∷ 4 ∷ 4 ∷ []) ready
      after_encrypt ready refl refl refl refl refl refl refl (omega arith) (omega arith) encrypted
