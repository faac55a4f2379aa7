-- ===== src/Pin/Verify.antt =====
-- Pin_Verify of ta/pin/pin_ta.c.
use frameworks_security.Base.{
  ℕ, ◌+◌, ◌≡◌, refl, ◌∙◌, ◌≤◌, inl, inr, some, List, take, take_all, length, bytes_eq,
  bytes_eq_sound, arith, Bool-cases,
}
use frameworks_security.Tee.{
  Tee, TeeResult, success, error_bad_parameters, types_match, types_match_refl, types_match_sound,
  ParamTypes, Params, StorageLaws, flags_read, opened,
}
use frameworks_security.Ta.{close_after, with_object}
use frameworks_security.Ta.Laws.{Reliable, close-opened}
use frameworks_security.Ta.Reading.{Ran, with_object_cases, with_object_reliable}
use frameworks_security.Pin.{pin_object, types_buffer, check_pin, pin_verify}
use frameworks_security.Ta.{Outcome}
use frameworks_security.Ta.Compare.{result_of, result_of-success, compare_bytes-eq}

module _ (t : Tee) (laws : StorageLaws t) where
  open t use {World, view}

  module _ (n : ℕ) (expected : ℕ) (ps : Params) (w : World)
      (fits : expected ≤ length ps.p1.buffer) where
    -- What the comparison of the stored PIN with the buffer ends in.
    pub check_pin-Ran :
        (result : Outcome t) (stored : List ℕ)
        → Ran t laws (pin_object n) 32 ps w (check_pin t expected ps) result
        → (view w).objects (pin_object n) ≡ some stored
        → (w' : World) × (view w' ≡ view w)
          × (result
              ≡ some (result_of (bytes_eq (take 32 stored) (take expected ps.p1.buffer)), ps, w'))
    unfolding check_pin
    check_pin-Ran result stored (read, obj, w2, there, fresh, e, ran) found =
        let one : read ≡ stored = cc in
        (
          t.close_object obj w2,
          close-opened t laws (view w) obj
              (opened (pin_object n) flags_read (0 + length (take 32 read))) w2 fresh e,
          ran
              ∙ rw (
                compare_bytes-eq expected ps.p1.buffer (take 32 read) fits,
                check_pin,
                close_after,
                one,
              ),
        )

  module _ (types : ParamTypes) (ps : Params) (w : World) where
    -- Pin_Verify never reads outside a buffer and changes nothing stored. It reports success only
    -- for its own parameter types, and only if the selected object exists and its first 32 bytes
    -- are the buffer.
    pub pin_verify_sound :
        (r : TeeResult) × (w' : World) × (pin_verify t types ps w ≡ some (r, ps, w'))
        × (view w' ≡ view w)
        × (r ≡ success
            → (types ≡ types_buffer)
              × (stored : List ℕ) × ((view w).objects (pin_object ps.p0.a) ≡ some stored)
              × (take 32 stored ≡ ps.p1.buffer))
    unfolding pin_verify
    pin_verify_sound = elim (Bool-cases (types_match types types_buffer)) [
      | inr bad ↦ (error_bad_parameters, w, rw bad, refl, λ e. cc)
      | inl good ↦
          elim (with_object_cases t laws (pin_object ps.p0.a) 32 ps w
            (check_pin t (length ps.p1.buffer) ps)) [
              | inl (r, w', bad, same, e) ↦ (r, w', rw good e, same, λ ok. absurd (bad ok))
              | inr ran ↦
                  let (w', same, e) =
                    check_pin-Ran ps.p0.a (length ps.p1.buffer) ps w (omega arith)
                      (with_object t (pin_object ps.p0.a) 32 (check_pin t (length ps.p1.buffer) ps)
                        ps w)
                      ran.0 ran ran.3 in
                  (
                    result_of (bytes_eq (take 32 ran.0) (take (length ps.p1.buffer) ps.p1.buffer)),
                    w',
                    rw good e,
                    same,
                    λ ok. (
                      types_match_sound types types_buffer good,
                      ran.0,
                      ran.3,
                      bytes_eq_sound _ _ (result_of-success _ ok)
                          ∙ take_all _ ps.p1.buffer (omega arith),
                    ),
                  )
            ]
    ]

  -- On a device whose storage does not fail, where the selected object exists, Pin_Verify with its
  -- parameter types reports success exactly if the first 32 stored bytes are the buffer, and a
  -- generic error otherwise; nothing stored changes.
  pub pin_verify_decides :
      (rel : Reliable t) (ps : Params) (w : World) (stored : List ℕ)
      → (view w).objects (pin_object ps.p0.a) ≡ some stored
      → (w' : World) × (view w' ≡ view w)
        × (pin_verify t types_buffer ps w
            ≡ some (result_of (bytes_eq (take 32 stored) ps.p1.buffer), ps, w'))
  unfolding pin_verify
  pin_verify_decides rel ps w stored there =
      let (w', same, e) =
        check_pin-Ran ps.p0.a (length ps.p1.buffer) ps w (omega arith)
          (with_object t (pin_object ps.p0.a) 32 (check_pin t (length ps.p1.buffer) ps) ps w) stored
          (with_object_reliable t laws (pin_object ps.p0.a) 32 ps w rel
            (check_pin t (length ps.p1.buffer) ps) (λ absent. cc))
          there in
      (
        w',
        same,
        rw (types_match_refl types_buffer)
            (e ∙ rw (take_all (length ps.p1.buffer) ps.p1.buffer (omega arith))),
      )
