-- ===== src/Comsst/Item.antt =====
-- The item commands of ta/comsst/comsst_ta.c, one by one.
use frameworks_security.Base.{
  ℕ, ◌+◌, ◌-◌, ◌≡◌, refl, ◌∙◌, ◌≤◌, ◌≢◌, ◌⊎◌, inl, inr, some, none, List, ◌++◌, take, take_all,
  drop, length, length-take, length-drop, bytes_eq, leb, le→leb, put, bytes_eq_sound, arith,
  Bool-cases, true, ◌&&◌,
}
use frameworks_security.Tee.{
  Tee, TeeResult, success, error_bad_parameters, types_match, types_match_refl, types_match_sound,
  ParamTypes, Params, StorageLaws, Name-discrete, flags_read, flags_write_meta, opened,
}
use frameworks_security.Ta.{
  Outcome, close_after, write_front, with_object, store_object, delete_opened, finish,
}
use frameworks_security.Ta.Compare.{result_of, result_of-success, compare_bytes-eq}
use frameworks_security.Ta.Laws.{
  Reliable, Stores, close-opened, store_object-Stores, delete_opened_lem,
}
use frameworks_security.Ta.Reading.{Ran, with_object_cases, with_object_reliable}
use frameworks_security.Comsst.{
  types_item, types_read, data_size, item_object, in_buffer, delete_item, read_params, read_into,
  read_item, write_item, compare_item, verify_item,
}

-- What follows the name in the buffer.
abbrev pub item_data : Params → List ℕ
item_data ps = drop ps.p0.a ps.p1.buffer

module _ (t : Tee) (laws : StorageLaws t) (ps : Params) (w : t.World)
    (named : ps.p0.a ≤ length ps.p1.buffer) where
  open t use {World, view}

  in_buffer-eq : (result : Outcome t) → in_buffer t ps result ≡ result
  unfolding in_buffer
  in_buffer-eq result = rw (le→leb ps.p0.a (length ps.p1.buffer) named) refl

  -- With its parameter types and a name that fits the buffer, Comsst_WriteItem stays within it and
  -- leaves the parameters alone. If it succeeds, the named object holds exactly the data and
  -- nothing else has changed, no handle staying open; if it fails, nothing has changed or the
  -- object was left empty.
  pub write_item_outcome :
      (r : TeeResult) × (w' : World) × (write_item t types_item ps w ≡ some (r, ps, w'))
      × Stores t (item_object ps) (item_data ps) w (r, w')
  unfolding write_item
  write_item_outcome =
      let r = store_object t (item_object ps) (item_data ps) w in
      (
        r.0,
        r.1,
        rw (types_match_refl types_item) (in_buffer-eq (finish t ps r)),
        store_object-Stores t laws _ _ w,
      )

  -- With its parameter types and a name that fits the buffer, Comsst_DeleteItem succeeds and the
  -- named object is gone, with nothing else changed, or it fails and no object has changed.
  pub delete_item_outcome :
      (r : TeeResult) × (w' : World) × (delete_item t types_item ps w ≡ some (r, ps, w'))
      × (((r ≡ success)
            × (view w' ≡ record (view w) {
              objects = put Name-discrete (view w).objects (item_object ps) none;
            }))
          ⊎ ((r ≢ success) × ((view w').objects ≡ (view w).objects)))
  unfolding delete_item
  delete_item_outcome =
      let r = delete_opened t (t.open_object (item_object ps) flags_write_meta w) in
      (
        r.0,
        r.1,
        rw (types_match_refl types_item) (in_buffer-eq (finish t ps r)),
        delete_opened_lem t laws (item_object ps) w,
      )

  -- What the comparison of a stored item with the data ends in.
  pub compare_item-Ran :
      (result : Outcome t) (stored : List ℕ)
      → Ran t laws (item_object ps) data_size ps w (compare_item t ps) result
      → (view w).objects (item_object ps) ≡ some stored
      → (w' : World) × (view w' ≡ view w)
        × (result ≡ some (result_of (bytes_eq (take data_size stored) (item_data ps)), ps, w'))
  unfolding compare_item
  compare_item-Ran result stored (read, obj, w2, there, fresh, e, ran) found =
      let one : read ≡ stored = cc in
      let whole : take (length ps.p1.buffer - ps.p0.a) (item_data ps) ≡ item_data ps =
        take_all _ (item_data ps) (omega (arith, length-drop ps.p0.a ps.p1.buffer)) in
      (
        t.close_object obj w2,
        close-opened t laws (view w) obj
            (opened (item_object ps) flags_read (0 + length (take data_size read))) w2 fresh e,
        ran
            ∙ rw (
              compare_bytes-eq (length ps.p1.buffer - ps.p0.a) (item_data ps) (take data_size read)
                  (omega (arith, length-drop ps.p0.a ps.p1.buffer)),
              whole,
              compare_item,
              close_after,
              one,
            ),
      )

  -- With a name that fits the buffer, Comsst_VerifyItem never reads outside it and changes nothing
  -- stored. It reports success only for its own parameter types, and only if the named object
  -- exists and its first 512 bytes are the data.
  pub verify_item_sound :
      (types : ParamTypes)
      → (r : TeeResult) × (w' : World) × (verify_item t types ps w ≡ some (r, ps, w'))
        × (view w' ≡ view w)
        × (r ≡ success
            → (types ≡ types_item)
              × (stored : List ℕ) × ((view w).objects (item_object ps) ≡ some stored)
              × (take data_size stored ≡ item_data ps))
  unfolding verify_item
  verify_item_sound types =
      elim (Bool-cases (types_match types types_item && leb ps.p0.a data_size)) [
        | inr bad ↦ (error_bad_parameters, w, rw bad, refl, λ e. cc)
        | inl good ↦
            elim (with_object_cases t laws (item_object ps) data_size ps w (compare_item t ps)) [
              | inl (r, w', bad, same, e) ↦
                  (r, w', rw good (in_buffer-eq _ ∙ e), same, λ ok. absurd (bad ok))
              | inr ran ↦
                  let (w', same, e) =
                    compare_item-Ran
                      (with_object t (item_object ps) data_size (compare_item t ps) ps w) ran.0 ran
                      ran.3 in
                  (
                    result_of (bytes_eq (take data_size ran.0) (item_data ps)),
                    w',
                    rw good (in_buffer-eq _ ∙ e),
                    same,
                    λ ok. (
                      types_match_sound types types_item (ground (arith, good)),
                      ran.0,
                      ran.3,
                      bytes_eq_sound _ _ (result_of-success _ ok),
                    ),
                  )
            ]
      ]

  pub verify_item_decides :
      Reliable t
      → (stored : List ℕ) → ps.p0.a ≤ data_size
      → (view w).objects (item_object ps) ≡ some stored
      → (w' : World) × (view w' ≡ view w)
        × (verify_item t types_item ps w
            ≡ some (result_of (bytes_eq (take data_size stored) (item_data ps)), ps, w'))
  unfolding verify_item
  verify_item_decides rel stored short there =
      let (w', same, e) =
        compare_item-Ran (with_object t (item_object ps) data_size (compare_item t ps) ps w) stored
          (with_object_reliable t laws (item_object ps) data_size ps w rel (compare_item t ps)
            (λ absent. cc))
          there in
      (
        w',
        same,
        rw (types_match_refl types_item, le→leb ps.p0.a data_size short) (in_buffer-eq _ ∙ e),
      )

  -- The parameters with the stored bytes at the front of the buffer, as many as it has room for.
  abbrev pub with_item : List ℕ → Params
  with_item stored =
      let bytes = take (length ps.p1.buffer) stored in
      read_params t ps (bytes ++ drop (length bytes) ps.p1.buffer) (length bytes)

  pub read_into-Ran :
      (result : Outcome t) (stored : List ℕ)
      → Ran t laws (item_object ps) (length ps.p1.buffer) ps w (read_into t ps) result
      → (view w).objects (item_object ps) ≡ some stored
      → (w' : World) × (view w' ≡ view w) × (result ≡ some (success, with_item stored, w'))
  unfolding read_into write_front
  read_into-Ran result stored (read, obj, w2, there, fresh, e, ran) found =
      let one : read ≡ stored = cc in
      let fits : leb (length (take (length ps.p1.buffer) read)) (length ps.p1.buffer) ≡ true =
        le→leb _ _ (omega (arith, length-take (length ps.p1.buffer) read)) in
      (
        t.close_object obj w2,
        close-opened t laws (view w) obj
            (opened (item_object ps) flags_read (0 + length (take (length ps.p1.buffer) read))) w2
            fresh e,
        ran ∙ rw (read_into, write_front, fits, close_after, one),
      )

  -- With its parameter types and a name that fits the buffer, Comsst_ReadItem stays within it and
  -- changes nothing stored. It fails and leaves the parameters alone, or it succeeds, the named
  -- object exists, and its bytes stand at the front of the buffer, as far as it has room, with
  -- their number in value.b.
  pub read_item_outcome :
      (r : TeeResult) × (ps' : Params) × (w' : World) × (read_item t types_read ps w
        ≡ some (r, ps', w'))
      × (view w' ≡ view w)
      × (((r ≢ success) × (ps' ≡ ps))
          ⊎ ((r ≡ success)
              × (stored : List ℕ) × ((view w).objects (item_object ps) ≡ some stored)
              × (ps' ≡ with_item stored)))
  unfolding read_item
  read_item_outcome =
      rw (types_match_refl types_read)
        (elim (with_object_cases t laws (item_object ps) (length ps.p1.buffer) ps w
          (read_into t ps)) [
            | inl (r, w', bad, same, e) ↦ (r, ps, w', in_buffer-eq _ ∙ e, same, inl (bad, refl))
            | inr ran ↦
                let (w', same, e) =
                  read_into-Ran
                    (with_object t (item_object ps) (length ps.p1.buffer) (read_into t ps) ps w)
                    ran.0 ran ran.3 in
                (
                  success,
                  with_item ran.0,
                  w',
                  in_buffer-eq _ ∙ e,
                  same,
                  inr (refl, ran.0, ran.3, refl),
                )
          ])

  pub read_item_reliable :
      Reliable t
      → (stored : List ℕ) → (view w).objects (item_object ps) ≡ some stored
      → (w' : World) × (view w' ≡ view w)
        × (read_item t types_read ps w ≡ some (success, with_item stored, w'))
  unfolding read_item
  read_item_reliable rel stored there =
      let (w', same, e) =
        read_into-Ran (with_object t (item_object ps) (length ps.p1.buffer) (read_into t ps) ps w)
          stored
          (with_object_reliable t laws (item_object ps) (length ps.p1.buffer) ps w rel
            (read_into t ps) (λ absent. cc))
          there in
      (w', same, rw (types_match_refl types_read) (in_buffer-eq _ ∙ e))
