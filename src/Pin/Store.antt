-- ===== src/Pin/Store.antt =====
-- Pin_Store, Pin_Check and Pin_Delete of ta/pin/pin_ta.c.
use frameworks_security.Base.{◌≡◌, ◌≢◌, ◌⊎◌, inl, inr, some, arith, Bool-cases}
use frameworks_security.Tee.{
  Tee, TeeResult, error_bad_parameters, types_match, types_match_refl, types_match_sound,
  ParamTypes, Params, StorageLaws,
}
use frameworks_security.Ta.{store_object}
use frameworks_security.Ta.Laws.{Stores, store_object-Stores}
use frameworks_security.Pin.{pin_object, types_buffer, pin_store}

module _ (t : Tee) (laws : StorageLaws t) (types : ParamTypes) (ps : Params) (w : t.World) where
  open t use {World}

  -- Refused for its parameter types, or carried out.
  abbrev pub StoreOutcome : Type 0
  StoreOutcome =
      ((types ≢ types_buffer) × (pin_store t types ps w ≡ some (error_bad_parameters, ps, w)))
      ⊎ ((types ≡ types_buffer)
          × (r : TeeResult) × (w' : World) × (pin_store t types ps w ≡ some (r, ps, w'))
          × Stores t (pin_object ps.p0.a) ps.p1.buffer w (r, w'))

  -- Pin_Store never reads outside a buffer and leaves the parameters alone. Given the wrong
  -- parameter types it changes nothing and reports bad parameters. Otherwise, if it succeeds, the
  -- selected object holds exactly the buffer and nothing else has changed, no handle staying open;
  -- if it fails, nothing has changed or the object was left empty.
  pub pin_store_outcome : StoreOutcome
  unfolding pin_store
  pin_store_outcome = elim (Bool-cases (types_match types types_buffer)) [
    | inr bad ↦ inl (λ e. ground (arith, types_match_refl types, bad, e), rw bad)
    | inl good ↦ inr (
      types_match_sound types types_buffer good,
      (store_object t (pin_object ps.p0.a) ps.p1.buffer w).0,
      (store_object t (pin_object ps.p0.a) ps.p1.buffer w).1,
      rw good,
      store_object-Stores t laws _ _ w,
    )
  ]
