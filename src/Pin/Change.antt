-- ===== src/Pin/Change.antt =====
-- Pin_Change of ta/pin/pin_ta.c.
use frameworks_security.Base.{
  ℕ, ◌≡◌, refl, ◌∙◌, ◌≢◌, ◌≤◌, ◌<◌, ◌⊎◌, inl, inr, true, false, none, some, List, [], take, drop,
  length, bytes_eq, bytes_eq_sound, arith, Bool, put,
}
use frameworks_security.Tee.{
  Tee, TeeResult, success, error_generic, types_match_refl, Params, StorageLaws, Secure,
  is_success-false, Name-discrete,
}
use frameworks_security.Ta.{store_object, close_after, with_object}
use frameworks_security.Ta.Laws.{Reliable, store_object-Stores}
use frameworks_security.Ta.Reading.{with_object_cases, with_object_reliable}
use frameworks_security.Pin.{pin_object, types_buffer, check_pin, pin_change, replace_pin}
use frameworks_security.Ta.{Outcome, compare_bytes, verdict}
use frameworks_security.Ta.Compare.{result_of, compare_bytes_overread}
use frameworks_security.Pin.Verify.{check_pin-Ran}

module _ (t : Tee) (laws : StorageLaws t) where
  open t use {World, view}

  -- The state after a change of the PIN that succeeded, and after one whose write failed.
  abbrev pub changed : Params → World → List ℕ → Secure
  changed ps w pin = record (view w) {
    objects = put Name-discrete (view w).objects (pin_object ps.p0.a) (some pin);
  }

  abbrev pub OldMatches : Params → World → Type 0
  OldMatches ps w =
      (stored : List ℕ) × ((view w).objects (pin_object ps.p0.a) ≡ some stored)
      × (take 32 stored ≡ take ps.p0.b ps.p1.buffer)

  abbrev pub Changes : Params → World → Outcome t → Type 0
  Changes ps w result =
      (r : TeeResult) × (w' : World) × (result ≡ some (r, ps, w'))
      × (((r ≢ success) × (view w' ≡ view w))
          ⊎ (OldMatches ps w
              × (((r ≡ success) × (view w' ≡ changed ps w (drop ps.p0.b ps.p1.buffer)))
                  ⊎ ((r ≢ success) × (view w' ≡ changed ps w [])))))

  module _ (ps : Params) (w : World) where
    replace_pin-Changes :
        (w1 : World)
        → view w1 ≡ view w
        → OldMatches ps w
        → Changes ps w (replace_pin t (some (success, ps, w1)))
    unfolding replace_pin
    replace_pin-Changes w1 same old =
        elim (store_object-Stores t laws (pin_object ps.p0.a) (drop ps.p0.b ps.p1.buffer) w1) [
          | inl (good, e) ↦ (r.0, r.1, refl, inr (old, inl (good, e ∙ rw same)))
          | inr (bad, inl e) ↦ (r.0, r.1, refl, inl (bad, e ∙ same))
          | inr (bad, inr e) ↦ (r.0, r.1, refl, inr (old, inr (bad, e ∙ rw same)))
        ]
      where
        r : TeeResult × World
        r = store_object t (pin_object ps.p0.a) (drop ps.p0.b ps.p1.buffer) w1

    after_check :
        (b : Bool) (w1 : World)
        → view w1 ≡ view w
        → (b ≡ true → OldMatches ps w)
        → Changes ps w (replace_pin t (some (result_of b, ps, w1)))
    unfolding replace_pin
    after_check true w1 same old = replace_pin-Changes w1 same (old refl)
    after_check false w1 same old = (error_generic, w1, refl, inl (λ e. cc, same))

    -- If the old PIN's length fits the buffer, Pin_Change with its parameter types never reads
    -- outside it. Either it fails and nothing has changed; or the old PIN matched the first 32
    -- stored bytes, and the object holds the rest of the buffer on success and is empty on failure.
    pub pin_change_outcome :
        ps.p0.b ≤ length ps.p1.buffer → Changes ps w (pin_change t types_buffer ps w)
    unfolding pin_change replace_pin
    pin_change_outcome fits =
        rw (types_match_refl types_buffer)
          (elim (with_object_cases t laws (pin_object ps.p0.a) 32 ps w (check_pin t ps.p0.b ps)) [
            | inl (r, w', bad, same, e) ↦ (r, w', rw (e, is_success-false r bad), inl (bad, same))
            | inr ran ↦
                let (w1, same, e) =
                  check_pin-Ran t laws ps.p0.a ps.p0.b ps w fits
                    (with_object t (pin_object ps.p0.a) 32 (check_pin t ps.p0.b ps) ps w) ran.0 ran
                    ran.3 in
                rw e (
                  after_check (bytes_eq (take 32 ran.0) (take ps.p0.b ps.p1.buffer)) w1 same
                    (λ same_pin. (
                      ran.0,
                      ran.3,
                      bytes_eq_sound (take 32 ran.0) (take ps.p0.b ps.p1.buffer) same_pin,
                    )))
          ])

    -- If the old PIN's length, as the caller states it, is that of the first 32 stored bytes and
    -- exceeds the buffer, and the buffer agrees with the stored bytes as far as it goes, Pin_Change
    -- reads past the end of the buffer, on a device whose storage does not fail.
    pub pin_change_overread :
        Reliable t
        → (stored : List ℕ) → (view w).objects (pin_object ps.p0.a) ≡ some stored
        → length (take 32 stored) ≡ ps.p0.b
        → length ps.p1.buffer < ps.p0.b
        → take (length ps.p1.buffer) (take 32 stored) ≡ ps.p1.buffer
        → pin_change t types_buffer ps w ≡ none
    unfolding pin_change replace_pin check_pin compare_bytes verdict
    pin_change_overread rel stored found same_length short matches =
        let (read, obj, w2, there, _, _, ran) =
          with_object_reliable t laws (pin_object ps.p0.a) 32 ps w rel (check_pin t ps.p0.b ps)
            (λ absent. cc) in
        let one : stored ≡ read = cc in
        rw (
          types_match_refl types_buffer,
          ran,
          ← one,
          compare_bytes_overread ps.p0.b ps.p1.buffer (take 32 stored) same_length (omega arith)
              matches,
          check_pin,
          close_after,
          replace_pin,
        )
