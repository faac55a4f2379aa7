-- ===== src/Comsst/Frame.antt =====
-- What no command of ta/comsst/comsst_ta.c touches.
use frameworks_security.Base.{
  ℕ, ◌≡◌, some, le→leb, refl, ◌≤◌, ◌≢◌, inl, inr, length, leb, ap, put_ne, Bool, if_cases, ◌==◌,
  ◌&&◌, if◌then◌else◌,
}
use frameworks_security.Tee.{
  TeeResult, success, error_bad_parameters, flags_write_meta, Tee, types_match, ParamTypes, Params,
  Name, Name-discrete, Secure, StorageLaws,
}
use frameworks_security.Ta.{Outcome, touch_object, delete_opened, store_object, refuse}
use frameworks_security.Ta.Laws.{touch_object_lem, delete_opened_lem, store_object-Stores}
use frameworks_security.Ta.Reading.{with_object_cases}
use frameworks_security.Comsst.{
  types_item, types_read, data_size, item_object, in_buffer, check_item, delete_item, read_into,
  read_item, write_item, compare_item, verify_item, invoke_command, cmd_chk, cmd_del, cmd_wr,
  cmd_rd, cmd_vr,
}
use frameworks_security.Comsst.Item.{item_data, compare_item-Ran, read_into-Ran}

module _ (t : Tee) (laws : StorageLaws t) (ps : Params) (w : t.World)
    (named : ps.p0.a ≤ length ps.p1.buffer) where
  open t use {World, view}

  -- The command returns, and every object but the named one is as before.
  abbrev pub Spared : Outcome t → Type 0
  Spared out =
      (r : TeeResult) × (ps' : Params) × (w' : World) × (out ≡ some (r, ps', w'))
      × ((m : Name) → m ≢ item_object ps → (view w').objects m ≡ (view w).objects m)

  returns :
      (r : TeeResult) (ps' : Params) (w' : World)
      → ((m : Name) → m ≢ item_object ps → (view w').objects m ≡ (view w).objects m)
      → Spared (some (r, ps', w'))
  returns r ps' w' others = (r, ps', w', refl, others)

  kept : (r : TeeResult) (ps' : Params) (w' : World) → view w' ≡ view w → Spared (some (r, ps', w'))
  kept r ps' w' same = returns r ps' w' (λ m other. ap (λ (v : Secure). v.objects m) same)

  guarded :
      (b : Bool) (out : Outcome t)
      → Spared out
      → Spared (if b then in_buffer t ps out else refuse t ps w)
  unfolding in_buffer
  guarded b out h =
      if_cases Spared b (λ _. rw (le→leb _ _ named) h) (λ _. kept error_bad_parameters ps w refl)

  check_item-Spared : (types : ParamTypes) → Spared (check_item t types ps w)
  unfolding check_item
  check_item-Spared types = guarded (types_match types types_item) _ (
      kept (touch_object t (item_object ps) w).0 ps (touch_object t (item_object ps) w).1
        (touch_object_lem t laws (item_object ps) w).0)

  delete_item-Spared : (types : ParamTypes) → Spared (delete_item t types ps w)
  unfolding delete_item
  delete_item-Spared types = guarded (types_match types types_item) _ (
      let d = delete_opened t (t.open_object (item_object ps) flags_write_meta w) in
      returns d.0 ps d.1 (elim (delete_opened_lem t laws (item_object ps) w) [
        | inl (_, e) ↦ λ m other. rw e (put_ne Name-discrete _ (item_object ps) _ m other)
        | inr (_, e) ↦ λ m other. rw e refl
      ]))

  write_item-Spared : (types : ParamTypes) → Spared (write_item t types ps w)
  unfolding write_item
  write_item-Spared types = guarded (types_match types types_item) _ (
      let d = store_object t (item_object ps) (item_data ps) w in
      returns d.0 ps d.1 (elim (store_object-Stores t laws (item_object ps) (item_data ps) w) [
        | inl (_, e) ↦ λ m other. rw e (put_ne Name-discrete _ (item_object ps) _ m other)
        | inr (_, inl e) ↦ λ m other. rw e refl
        | inr (_, inr e) ↦ λ m other. rw e (put_ne Name-discrete _ (item_object ps) _ m other)
      ]))

  read_item-Spared : (types : ParamTypes) → Spared (read_item t types ps w)
  unfolding read_item
  read_item-Spared types =
      guarded (types_match types types_read) _
        (elim (with_object_cases t laws (item_object ps) (length ps.p1.buffer) ps w
          (read_into t ps)) [
            | inl (r, w', bad, same, e) ↦ rw e (kept r ps w' same)
            | inr ran ↦
                let (w', same, e) = read_into-Ran t laws ps w named _ ran.0 ran ran.3 in
                rw e (kept success _ w' same)
          ])

  verify_item-Spared : (types : ParamTypes) → Spared (verify_item t types ps w)
  unfolding verify_item
  verify_item-Spared types =
      guarded (types_match types types_item && leb ps.p0.a data_size) _
        (elim (with_object_cases t laws (item_object ps) data_size ps w (compare_item t ps)) [
          | inl (r, w', bad, same, e) ↦ rw e (kept r ps w' same)
          | inr ran ↦
              let (w', same, e) = compare_item-Ran t laws ps w named _ ran.0 ran ran.3 in
              rw e (kept _ ps w' same)
        ])

  -- With a name that fits the buffer every command returns, makes no access outside the buffer, and
  -- changes no object other than the one that its parameters name, whatever its number and its
  -- parameter types are and whether or not calls of the TEE fail.
  pub invoke_command-Spared :
      (cmd : ℕ) (types : ParamTypes) → Spared (invoke_command t cmd types ps w)
  unfolding invoke_command
  invoke_command-Spared cmd types =
      if_cases Spared (cmd == cmd_chk) (λ _. check_item-Spared types)
        λ _.
          if_cases Spared (cmd == cmd_del) (λ _. delete_item-Spared types)
            λ _.
              if_cases Spared (cmd == cmd_wr) (λ _. write_item-Spared types)
                λ _.
                  if_cases Spared (cmd == cmd_rd) (λ _. read_item-Spared types)
                    λ _.
                      if_cases Spared (cmd == cmd_vr) (λ _. verify_item-Spared types)
                        λ _. kept error_bad_parameters ps w refl
