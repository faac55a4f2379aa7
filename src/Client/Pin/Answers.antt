-- ===== src/Client/Pin/Answers.antt =====
-- The answers of ta/pin/pin_ta.c to what ca/pin/pin_ca_api.c sends it, as steps of the service.
use frameworks_security.Base.{
  ℕ, ◌≡◌, refl, ◌∙◌, ◌≢◌, inl, inr, Bool, true, false, Option, none, some, List, [], ◌++◌, length,
  take-append, drop-append, length-append, put, put_self, put_ne, fun_ext, arith, Bool-cases,
  Option-cases, ap, sym,
}
use frameworks_security.Tee.{
  success, storage_user, storage_private, Tee, TeeResult, is_success, is_success-false,
  types_match_refl, Params, Name, Name-discrete, Secure, StorageLaws,
}
use frameworks_security.Ta.{select_storage, touch_object}
use frameworks_security.Ta.Laws.{touch_object_lem}
use frameworks_security.Teec.{App}
use frameworks_security.Pin.{
  pin_object, types_buffer, types_session, open_session, invoke_command, pin_check, cmd_store,
  cmd_verify, cmd_change, cmd_chk, cmd_del,
}
use frameworks_security.Pin.Store.{pin_store_outcome}
use frameworks_security.Pin.Verify.{pin_verify_sound}
use frameworks_security.Pin.Change.{pin_change_outcome}
use frameworks_security.Pin.Session.{pin_delete_outcome}
use frameworks_security.Client.{session_types, storage_flag}
use frameworks_security.Client.Pin.{flag_params, pin_params}
use frameworks_security.Client.Pin.Spec.{
  Pins, with_pin, PinRequest, store, verify, change, is_exist, delete, PinStep, failed, stored,
  emptied, accepted, changed, change_emptied, found, deleted,
}

-- The application behind the client.
abbrev pub pin_app : (t : Tee) → App t
pin_app t = record { open_session = open_session; invoke = invoke_command t }

pub pin_app-opens : (t : Tee) → (pin_app t).open_session session_types ≡ success
unfolding open_session
pin_app-opens t = rw (types_match_refl types_session)

-- The object of a slot, and the slots of a store.
abbrev pub slot : Bool → Name
slot d = pin_object (storage_flag d)

abbrev pub pins : Secure → Pins
pins s d = s.objects (slot d)

slot_ne : slot true ≢ slot false
unfolding pin_object select_storage
slot_ne e = let s : storage_user ≡ storage_private = ap (λ (n : Name). n.storage) e in cc

pins-put :
    (s s' : Secure) (d : Bool) (v : Option (List ℕ))
    → s'.objects ≡ put Name-discrete s.objects (slot d) v
    → pins s' ≡ with_pin d v (pins s)
pins-put s s' d v e = fun_ext (λ k. rw e (at_slot d k))
  where
    at_slot :
        (d k : Bool) → put Name-discrete s.objects (slot d) v (slot k) ≡ with_pin d v (pins s) k
    at_slot true true = put_self Name-discrete s.objects (slot true) v
    at_slot false false = put_self Name-discrete s.objects (slot false) v
    at_slot true false =
        put_ne Name-discrete s.objects (slot true) v (slot false) (λ e. slot_ne (sym e))
    at_slot false true = put_ne Name-discrete s.objects (slot false) v (slot true) slot_ne

module _ (t : Tee) (laws : StorageLaws t) where
  open t use {World, view}

  -- The application's answer to a request is a step of the service.
  abbrev pub Answers : PinRequest → World → Option (TeeResult × Params × World) → Type 0
  Answers q w o =
      (r : TeeResult) × (ps : Params) × (w' : World) × (o ≡ some (r, ps, w'))
      × PinStep q (is_success r) (pins (view w)) (pins (view w'))

  pub store-Answers :
      (d : Bool) (pin : List ℕ) (w : World)
      → Answers (store d pin) w (invoke_command t cmd_store types_buffer (pin_params d 0 pin) w)
  unfolding invoke_command
  store-Answers d pin w = elim (pin_store_outcome t laws types_buffer (pin_params d 0 pin) w) [
    | inl (bad, _) ↦ absurd (bad refl)
    | inr (_, r, w', e, inl (good, e2)) ↦ (
      r,
      pin_params d 0 pin,
      w',
      e,
      rw (good, pins-put (view w) (view w') d (some pin) (ap (λ (s : Secure). s.objects) e2))
          (stored d pin _),
    )
    | inr (_, r, w', e, inr (bad, inl e2)) ↦
        (r, pin_params d 0 pin, w', e, rw (is_success-false r bad, e2) (failed _ _))
    | inr (_, r, w', e, inr (bad, inr e2)) ↦ (
      r,
      pin_params d 0 pin,
      w',
      e,
      rw
          (
            is_success-false r bad,
            pins-put (view w) (view w') d (some []) (ap (λ (s : Secure). s.objects) e2),
          )
          (emptied d pin _),
    )
  ]

  pub verify-Answers :
      (d : Bool) (pin : List ℕ) (w : World)
      → Answers (verify d pin) w (invoke_command t cmd_verify types_buffer (pin_params d 0 pin) w)
  unfolding invoke_command
  verify-Answers d pin w =
      let (r, w', e, same, ok) = pin_verify_sound t laws types_buffer (pin_params d 0 pin) w in
      (
        r,
        pin_params d 0 pin,
        w',
        e,
        rw same (elim (Bool-cases (is_success r)) [
          | inr bad ↦ rw bad (failed _ _)
          | inl good ↦
              let (_, old, there, match) = ok (ground (arith, good)) in
              rw good (accepted d pin old _ there match)
        ]),
      )

  pub change-Answers :
      (d : Bool) (old new : List ℕ) (w : World)
      → Answers
          (change d old new)
          w
          (invoke_command t cmd_change types_buffer (pin_params d (length old) (old ++ new)) w)
  unfolding invoke_command
  change-Answers d old new w =
      let (r, w', e, outcome) =
        pin_change_outcome t laws ps w (omega (arith, length-append old new)) in
      (
        r,
        ps,
        w',
        e,
        elim outcome [
          | inl (bad, same) ↦ rw (is_success-false r bad, same) (failed _ _)
          | inr ((before, there, match), inl (good, e2)) ↦
              rw
                (
                  good,
                  pins-put (view w) (view w') d (some new)
                      (ap (λ (s : Secure). s.objects) e2 ∙ rw (drop-append old new)),
                )
                (changed d old new before _ there (match ∙ take-append old new))
          | inr ((before, there, match), inr (bad, e2)) ↦
              rw
                (
                  is_success-false r bad,
                  pins-put (view w) (view w') d (some []) (ap (λ (s : Secure). s.objects) e2),
                )
                (change_emptied d old new before _ there (match ∙ take-append old new))
        ],
      )
    where
      ps : Params
      ps = pin_params d (length old) (old ++ new)

  pub is_exist-Answers :
      (d : Bool) (w : World)
      → Answers (is_exist d) w (invoke_command t cmd_chk types_session (flag_params d) w)
  unfolding invoke_command pin_check
  is_exist-Answers d w = rw (types_match_refl types_session) (
      let (same, there) = touch_object_lem t laws (slot d) w in
      (
        r.0,
        flag_params d,
        r.1,
        refl,
        rw same (elim (Bool-cases (is_success r.0)) [
          | inr bad ↦ rw bad (failed _ _)
          | inl good ↦ elim (Option-cases ((view w).objects (slot d))) [
            | inl absent ↦ absurd (there (ground (arith, good)) absent)
            | inr (old, e) ↦ rw good (found d old _ e)
          ]
        ]),
      ))
    where
      r : TeeResult × World
      r = touch_object t (slot d) w

  pub delete-Answers :
      (d : Bool) (w : World)
      → Answers (delete d) w (invoke_command t cmd_del types_session (flag_params d) w)
  unfolding invoke_command
  delete-Answers d w =
      let (r, w', e, outcome) = pin_delete_outcome t laws (flag_params d) w in
      (
        r,
        flag_params d,
        w',
        e,
        elim outcome [
          | inl (good, e2) ↦
              rw (good, pins-put (view w) (view w') d none (ap (λ (s : Secure). s.objects) e2))
                (deleted d _)
          | inr (bad, e2) ↦ rw (is_success-false r bad, e2) (failed _ _)
        ],
      )
