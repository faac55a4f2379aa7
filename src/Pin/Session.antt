-- ===== src/Pin/Session.antt =====
-- Several commands of ta/pin/pin_ta.c in a row.
use frameworks_security.Base.{
  ℕ, ◌≡◌, refl, sym, ◌∙◌, ◌≢◌, ◌⊎◌, inl, inr, none, some, List, [], ◌∷◌, if_cases, Option-cases,
  put_ne, ap, Option, put, ℕ_discrete,
}
use frameworks_security.Tee.{
  Tee, TeeResult, success, types_match, types_match_refl, Name, flags_write_meta, ParamTypes,
  Params, StorageLaws, DigestLaws, Name-discrete,
}
use frameworks_security.Ta.Laws.{SparesOthers, delete_opened_lem}
use frameworks_security.Pin.{
  pin_object, pin_name, types_session, pin_delete, invoke_command, cmd_del,
}
use frameworks_security.Ta.{Outcome, delete_opened}
use frameworks_security.Pin.Frame.{Spares, invoke_command-Spares}

module _ (t : Tee) (laws : StorageLaws t) where
  open t use {World, view}

  -- Pin_Delete: the object is gone and nothing else has changed, or no object has changed.
  pub pin_delete_outcome :
      (ps : Params) (w : World)
      → (r : TeeResult) × (w' : World) × (pin_delete t types_session ps w ≡ some (r, ps, w'))
        × (((r ≡ success)
              × (view w' ≡ record (view w) {
                objects = put Name-discrete (view w).objects (pin_object ps.p0.a) none;
              }))
            ⊎ ((r ≢ success) × ((view w').objects ≡ (view w).objects)))
  unfolding pin_delete
  pin_delete_outcome ps w =
      let n = pin_object ps.p0.a in
      let d = delete_opened t (t.open_object n flags_write_meta w) in
      (d.0, d.1, rw (types_match_refl types_session), delete_opened_lem t laws n w)

  -- A command from the normal world: its number, its parameter types and its parameters.
  abbrev pub Request : Type 0
  Request = ℕ × ParamTypes × Params

  -- The requests in order; `none` is an access outside a buffer.
  unfoldable pub run_requests : List Request → World → Option World
  run_requests [] w = some w
  run_requests ((cmd, types, ps) ∷ rest) w = elim (invoke_command t cmd types ps w) [
    | none ↦ none
    | some (_, _, w') ↦ run_requests rest w'
  ]

  Spares-SparesOthers :
      (n : Name) (w : World) (result : Outcome t) → Spares t n w result → SparesOthers t n w result
  Spares-SparesOthers n w none h = tt
  Spares-SparesOthers n w (some (_, _, w')) h = h.0

  pin_delete-SparesOthers :
      (types : ParamTypes) (ps : Params) (w : World)
      → SparesOthers t (pin_object ps.p0.a) w (pin_delete t types ps w)
  unfolding pin_delete
  pin_delete-SparesOthers types ps w =
      if_cases (SparesOthers t (pin_object ps.p0.a) w) (types_match types types_session)
        (λ _. elim (delete_opened_lem t laws (pin_object ps.p0.a) w) [
          | inl (_, e) ↦ rw e (λ m other. put_ne Name-discrete _ (pin_object ps.p0.a) _ m other)
          | inr (_, e) ↦ rw e (λ m _. refl)
        ])
        (λ _ m _. refl)

  module _ (sha256 : List ℕ → List ℕ) (digest : DigestLaws t sha256) where
    -- A command changes no object but the PIN of the store that its first value selects.
    pub invoke_command-SparesOthers :
        (cmd : ℕ) (types : ParamTypes) (ps : Params) (w : World)
        → SparesOthers t (pin_object ps.p0.a) w (invoke_command t cmd types ps w)
    invoke_command-SparesOthers cmd types ps w = elim (ℕ_discrete cmd cmd_del) [
      | yes del ↦ rw del (unfold invoke_command in pin_delete-SparesOthers types ps w)
      | no other ↦
          Spares-SparesOthers _ w _
            (invoke_command-Spares t laws sha256 digest types ps w cmd other)
    ]

    -- Whatever requests the application is sent, an object that is not named as the PIN is never
    -- changed, if no request makes an access outside a buffer.
    pub run_requests_isolated :
        (requests : List Request) (w w' : World) (m : Name)
        → run_requests requests w ≡ some w'
        → m.id ≢ pin_name
        → (view w').objects m ≡ (view w).objects m
    unfolding run_requests pin_object
    run_requests_isolated [] w w' m done other =
        ap (λ (v : World). (view v).objects m) (sym (cc done))
    run_requests_isolated ((cmd, types, ps) ∷ rest) w w' m done other =
        elim (Option-cases (invoke_command t cmd types ps w)) [
          | inl fault ↦ cc (rw (fault, run_requests) at done)
          | inr ((r, ps', w1), e) ↦
              run_requests_isolated rest w1 w' m (rw (e, run_requests) at done) other
              ∙ rw e at (invoke_command-SparesOthers cmd types ps w) m
                  (λ same. other (ap (λ (n : Name). n.id) same))
        ]
