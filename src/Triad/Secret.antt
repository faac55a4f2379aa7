-- ===== src/Triad/Secret.antt =====
-- Storing and loading the key and the identity of ta/triad/triad_ta.c.
use mathlib.Core.List.{append-nil}
use frameworks_security.Base.{
  drop_all, ℕ, ◌+◌, ◌≡◌, refl, ◌∙◌, ◌≢◌, ◌⊎◌, inl, inr, some, List, ◌++◌, take, take_all, drop,
  length, length-take, leb, le→leb, put_self, arith, ap, Bool-cases, true, ◌==◌,
}
use frameworks_security.Tee.{
  Tee, TeeResult, success, error_bad_parameters, types_match, types_match_refl, ParamTypes, Params,
  Name, StorageLaws, Name-discrete, flags_read, opened,
}
use frameworks_security.Ta.{Outcome, close_after, write_front, with_object, store_object}
use frameworks_security.Ta.Laws.{Reliable, Stores, close-opened, store_object-Stores}
use frameworks_security.Ta.Reading.{Ran, with_object_cases, with_object_reliable}
use frameworks_security.Triad.{
  types_store, types_load, key_object, key_size, did_object, did_size, set_buffer, store_secret,
  store_key, store_did, load_into, load_secret, load_key, load_did,
}

module _ (t : Tee) (laws : StorageLaws t) where
  open t use {World, view}

  module _ (n : Name) (size : ℕ) (ps : Params) (w : World)
      (sized : length ps.p0.buffer ≡ size) where
    -- The parameters with the stored bytes at the front of the buffer.
    abbrev pub loaded : List ℕ → Params
    loaded stored =
        set_buffer ps (take size stored ++ drop (length (take size stored)) ps.p0.buffer)

    load_into-Ran :
        (result : Outcome t) (stored : List ℕ)
        → Ran t laws n size ps w (load_into t ps) result
        → (view w).objects n ≡ some stored
        → (w' : World) × (view w' ≡ view w) × (result ≡ some (success, loaded stored, w'))
    unfolding load_into write_front
    load_into-Ran result stored (read, obj, w2, there, fresh, e, ran) found =
        let one : read ≡ stored = cc in
        let fits : leb (length (take size read)) (length ps.p0.buffer) ≡ true =
          le→leb _ _ (omega (arith, length-take size read)) in
        (
          t.close_object obj w2,
          close-opened t laws (view w) obj (opened n flags_read (0 + length (take size read))) w2
              fresh e,
          ran ∙ rw (load_into, write_front, fits, close_after, one),
        )

    right_size : (length ps.p0.buffer == size) ≡ true
    right_size = ground arith

    pub load_secret_reliable :
        Reliable t
        → (stored : List ℕ) → (view w).objects n ≡ some stored
        → (w' : World) × (view w' ≡ view w)
          × (load_secret t n size types_load ps w ≡ some (success, loaded stored, w'))
    unfolding load_secret
    load_secret_reliable rel stored there =
        let (w', same, e) =
          load_into-Ran (with_object t n size (load_into t ps) ps w) stored
            (with_object_reliable t laws n size ps w rel (load_into t ps) (λ absent. cc)) there in
        (w', same, rw (types_match_refl types_load, right_size) e)

    -- What a load does: it changes nothing stored; it fails and leaves the buffer alone, or the
    -- object is there and its first bytes stand in the buffer.
    abbrev pub Loads : Outcome t → Type 0
    Loads out =
        (r : TeeResult) × (ps' : Params) × (w' : World) × (out ≡ some (r, ps', w'))
        × (view w' ≡ view w)
        × (((r ≢ success) × (ps' ≡ ps))
            ⊎ ((r ≡ success)
                × (stored : List ℕ) × ((view w).objects n ≡ some stored)
                × (ps' ≡ loaded stored)))

    load_secret-Loads : Loads (load_secret t n size types_load ps w)
    unfolding load_secret
    load_secret-Loads =
        rw (types_match_refl types_load, right_size)
          (elim (with_object_cases t laws n size ps w (load_into t ps)) [
            | inl (r, w', bad, same, e) ↦ (r, ps, w', e, same, inl (bad, refl))
            | inr ran ↦
                let (w', same, e) =
                  load_into-Ran (with_object t n size (load_into t ps) ps w) ran.0 ran ran.3 in
                (success, loaded ran.0, w', e, same, inr (refl, ran.0, ran.3, refl))
          ])

    -- A store is refused and changes nothing, or it is carried out.
    abbrev pub StoresSized : ParamTypes → Outcome t → Type 0
    StoresSized types out =
        (r : TeeResult) × (w' : World) × (out ≡ some (r, ps, w'))
        × (((r ≡ error_bad_parameters) × (w' ≡ w) × (types ≢ types_store))
            ⊎ Stores t n ps.p0.buffer w (r, w'))

    pub store_secret-StoresSized :
        (types : ParamTypes) → StoresSized types (store_secret t n size types ps w)
    unfolding store_secret
    store_secret-StoresSized types = elim (Bool-cases (types_match types types_store)) [
      | inl good ↦
          let r = store_object t n ps.p0.buffer w in
          (r.0, r.1, rw (good, right_size), inr (store_object-Stores t laws n ps.p0.buffer w))
      | inr bad ↦ (
        error_bad_parameters,
        w,
        rw bad,
        inl (refl, refl, λ e. ground (arith, types_match_refl types, bad, e)),
      )
    ]

  module _ (n : Name) (size : ℕ) (rel : Reliable t) (ps qs : Params) (w w1 : World)
      (sized : length ps.p0.buffer ≡ size) (room : length qs.p0.buffer ≡ size)
      (stored : store_secret t n size types_store ps w ≡ some (success, ps, w1)) where
    there : (view w1).objects n ≡ some ps.p0.buffer
    there =
        let (r, w', e, out) = store_secret-StoresSized n size ps w sized types_store in
        let both : ◌≡◌ {A = Outcome t} (some (r, ps, w')) (some (success, ps, w1)) = cc in
        elim out [
          | inl (_, _, other) ↦ absurd (other refl)
          | inr (inl (good, e2)) ↦
              let here : w' ≡ w1 = cc both in rw (← here, e2) (put_self Name-discrete _ n _)
          | inr (inr (bad, _)) ↦ absurd (bad (cc both))
        ]

    loaded-eq : loaded n size qs w1 room ps.p0.buffer ≡ set_buffer qs ps.p0.buffer
    loaded-eq = rw (
      take_all size ps.p0.buffer (omega arith),
      drop_all (length ps.p0.buffer) qs.p0.buffer (omega arith),
      append-nil,
    )

    store_then_load :
        (w2 : World) × (view w2 ≡ view w1)
        × (load_secret t n size types_load qs w1 ≡ some (success, set_buffer qs ps.p0.buffer, w2))
    store_then_load =
        let (w2, same, e) = load_secret_reliable n size qs w1 room rel ps.p0.buffer there in
        (w2, same, e ∙ ap (λ x. some (success, x, w2)) loaded-eq)

  module _ (ps : Params) (w : World) where
    -- With a buffer of 16 bytes TA_Store_Key is refused for wrong parameter types and changes
    -- nothing; otherwise, if it succeeds, the key's object holds exactly the buffer and nothing
    -- else has changed, no handle staying open, and if it fails, nothing has changed or the object
    -- was left empty.
    pub store_key_outcome :
        (sized : length ps.p0.buffer ≡ key_size) (types : ParamTypes)
        → StoresSized key_object key_size ps w sized types (store_key t types ps w)
    unfolding store_key
    store_key_outcome sized types = store_secret-StoresSized key_object key_size ps w sized types

    -- With its parameter types and a buffer of 16 bytes TA_Load_Key changes nothing stored. It
    -- fails and leaves the buffer alone, or it succeeds, the key's object exists, and its first 16
    -- bytes, or all if there are fewer, stand at the front of the buffer.
    pub load_key_outcome :
        (sized : length ps.p0.buffer ≡ key_size)
        → Loads key_object key_size ps w sized (load_key t types_load ps w)
    unfolding load_key
    load_key_outcome sized = load_secret-Loads key_object key_size ps w sized

  module _ (rel : Reliable t) (ps qs : Params) (w w1 : World) where
    -- On a device whose storage does not fail, a key of 16 bytes that was stored is what
    -- TA_Load_Key puts into a buffer of 16 bytes; nothing stored changes.
    pub store_key_then_load :
        length ps.p0.buffer ≡ key_size
        → length qs.p0.buffer ≡ key_size
        → store_key t types_store ps w ≡ some (success, ps, w1)
        → (w2 : World) × (view w2 ≡ view w1)
          × (load_key t types_load qs w1 ≡ some (success, set_buffer qs ps.p0.buffer, w2))
    unfolding store_key load_key
    store_key_then_load = store_then_load key_object key_size rel ps qs w w1

    -- On a device whose storage does not fail, an identity of 8 bytes that was stored is what
    -- TA_Load_DID puts into a buffer of 8 bytes; nothing stored changes.
    pub store_did_then_load :
        length ps.p0.buffer ≡ did_size
        → length qs.p0.buffer ≡ did_size
        → store_did t types_store ps w ≡ some (success, ps, w1)
        → (w2 : World) × (view w2 ≡ view w1)
          × (load_did t types_load qs w1 ≡ some (success, set_buffer qs ps.p0.buffer, w2))
    unfolding store_did load_did
    store_did_then_load = store_then_load did_object did_size rel ps qs w w1
