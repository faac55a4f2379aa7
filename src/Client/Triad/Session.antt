-- ===== src/Client/Triad/Session.antt =====
-- ca/triad/triad_ca_api.c together with ta/triad/triad_ta.c: what is stored is what is loaded.
use mathlib.Core.List.{append-nil}
use frameworks_security.Base.{
  length-replicate, memcpy, ◌==◌, true, ℕ, ◌≡◌, refl, ◌∙◌, inl, inr, some, List, length, take_all,
  drop_all, arith, replicate,
}
use frameworks_security.Tee.{Tee, success, types_match_refl, Params, Name, StorageLaws}
use frameworks_security.Ta.Laws.{Reliable}
use frameworks_security.Teec.{Teec, App, TeecLaws, mem_input, mem_output}
use frameworks_security.Triad.{
  store_key, load_key, store_did, load_did, types_session, open_session, key_object, did_object,
  store_secret, load_secret, types_store, types_load,
}
use frameworks_security.Triad.Secret.{store_secret-StoresSized, load_secret_reliable}
use frameworks_security.Triad.Hmac.{Mac}
use frameworks_security.Triad.Gcm.{Ae}
use frameworks_security.Triad.Header.{Platform}
use frameworks_security.Triad.Dispatch.{
  invoke_command, cmd_store_did, cmd_load_did, cmd_store_key, cmd_load_key,
}
use frameworks_security.Client.{with_params, session_types}
use frameworks_security.Client.Answer.{Stores-Ends, unit_answer, call_memory-Ends, memcpy_whole}
use frameworks_security.Client.Triad.{
  secret_params, cleared, store_call, load_call, triad_store_key, triad_load_key, triad_store_did,
  triad_load_did,
}

module _ (t : Tee) (m : Mac t) (ae : Ae t) (p : Platform) (stack : ℕ) where
  -- The application behind the client.
  abbrev pub triad_app : App t
  triad_app = record { open_session = open_session; invoke = invoke_command t m ae p stack }

  pub triad_app-opens : triad_app.open_session session_types ≡ success
  unfolding open_session
  triad_app-opens = rw (types_match_refl types_session)

module _ {t : Tee} (m : Mac t) (ae : Ae t) (p : Platform) (stack : ℕ) (c : Teec t)
    (laws : StorageLaws t) (client : TeecLaws c (triad_app t m ae p stack) ⊥) where
  open c use {World, held, tee}

  module _ (n : Name) (size store_cmd load_cmd : ℕ) (secret : List ℕ)
      (sized : length secret ≡ size) where
    right_size : (size == size) ≡ true
    right_size = ground arith

    store_call-object :
        ((ps : Params) (tw : t.World)
          → invoke_command t m ae p stack store_cmd types_store ps tw
            ≡ store_secret t n size types_store ps tw)
        → (w w1 : World) → store_call c store_cmd size secret size w ≡ some (success, tt, w1)
        → (held w1 ≡ held w) × ((t.view (tee w1)).objects n ≡ some secret)
    unfolding store_call
    store_call-object runs w w1 done =
        let ps = secret_params secret in
        let (r, tw, e, outcome) =
          store_secret-StoresSized t laws n size ps (tee w) sized types_store in
        elim outcome [
          | inl (_, _, other) ↦ absurd (other refl)
          | inr stores ↦
              Stores-Ends c n secret w w1 stores
                (call_memory-Ends c ⊥ tt (triad_app t m ae p stack) client
                  (triad_app-opens t m ae p stack) store_cmd types_store (λ _. some tt) w mem_input
                  size (λ shm. with_params secret_params (memcpy 0 size secret (cleared shm))) ps _
                  (λ shm fits. rw (
                    memcpy_whole size secret (cleared shm) (length-replicate (length shm) 0 ∙ fits)
                        (omega (arith, sized)),
                    take_all size secret (omega (arith, sized)),
                  ))
                  (unit_answer (runs ps (tee w) ∙ e)))
                (rw right_size at done)
        ]

    load_call-object :
        ((ps : Params) (tw : t.World)
          → invoke_command t m ae p stack load_cmd types_load ps tw
            ≡ load_secret t n size types_load ps tw)
        → Reliable t
        → (dst : List ℕ) (w : World) → length dst ≡ size
        → (t.view (tee w)).objects n ≡ some secret
        → (w2 : World) × (load_call c load_cmd size dst size w ≡ some (success, secret, w2))
          × (held w2 ≡ held w)
          × (t.view (tee w2) ≡ t.view (tee w))
    unfolding load_call
    load_call-object runs rel dst w room there =
        let ps = secret_params (replicate size 0) in
        let (tw, same, e) =
          load_secret_reliable t laws n size ps (tee w) (length-replicate size 0) rel secret
            there in
        elim (call_memory-Ends c ⊥ dst (triad_app t m ae p stack) client
          (triad_app-opens t m ae p stack) load_cmd types_load
          (λ ps'. memcpy 0 size ps'.p0.buffer dst) w mem_output size
          (λ shm. some (secret_params (cleared shm))) ps (some (success, secret, tw))
          (λ shm fits. rw fits)
          (rw
            (
              runs ps (tee w) ∙ e,
              take_all size secret (omega (arith, sized)),
              drop_all (length secret) (replicate {A = ℕ} size 0)
                  (omega (arith, sized, length-replicate {A = ℕ} size 0)),
              append-nil,
              memcpy_whole size secret dst room (omega (arith, sized)),
            )
            (rw (take_all size secret (omega (arith, sized))) refl))) [
              | inl (_, _, _, (never, _, _)) ↦ absurd never
              | inr (w2, e2, kept, reached) ↦ (w2, rw right_size e2, kept, rw reached same)
            ]

  module _ (rel : Reliable t) (secret dst : List ℕ) (w w1 : World) where
    -- Where no call of the client fails, and no opening or reading on the device: a key of 16 bytes
    -- that was stored with success is what is loaded into a buffer of 16 bytes; nothing stored
    -- changes, and the client has given back all that it took.
    pub triad_key_round_trip :
        length secret ≡ 16
        → length dst ≡ 16
        → triad_store_key c secret 16 w ≡ some (success, tt, w1)
        → (w2 : World) × (triad_load_key c dst 16 w1 ≡ some (success, secret, w2))
          × (held w2 ≡ held w)
          × (t.view (tee w2) ≡ t.view (tee w1))
    unfolding triad_store_key triad_load_key invoke_command store_key load_key
    triad_key_round_trip sized room done =
        let (kept, there) =
          store_call-object key_object 16 cmd_store_key cmd_load_key secret sized (λ ps tw. refl) w
            w1 done in
        let (w2, e, kept2, same) =
          load_call-object key_object 16 cmd_store_key cmd_load_key secret sized (λ ps tw. refl) rel
            dst w1 room there in
        (w2, e, kept2 ∙ kept, same)

    pub triad_did_round_trip :
        length secret ≡ 8
        → length dst ≡ 8
        → triad_store_did c secret 8 w ≡ some (success, tt, w1)
        → (w2 : World) × (triad_load_did c dst 8 w1 ≡ some (success, secret, w2))
          × (held w2 ≡ held w)
          × (t.view (tee w2) ≡ t.view (tee w1))
    unfolding triad_store_did triad_load_did invoke_command store_did load_did
    triad_did_round_trip sized room done =
        let (kept, there) =
          store_call-object did_object 8 cmd_store_did cmd_load_did secret sized (λ ps tw. refl) w
            w1 done in
        let (w2, e, kept2, same) =
          load_call-object did_object 8 cmd_store_did cmd_load_did secret sized (λ ps tw. refl) rel
            dst w1 room there in
        (w2, e, kept2 ∙ kept, same)
