-- ===== src/Comsst.antt =====
-- ta/comsst/comsst_ta.c and include/comsst_ta.h: the trusted application that keeps items under
-- names of the caller's. The buffer holds the name, `value.a` bytes long, and after it the data;
-- `none` is an access outside that buffer.
pub mod Item
pub mod Frame
mod Tests
use frameworks_security.Base.{
  ℕ, ◌-◌, ◌&&◌, none, some, List, take, drop, length, leb, ◌==◌, if◌then◌else◌,
}
use frameworks_security.Tee.{
  Tee, TeeResult, success, error_bad_parameters, Name, flags_write_meta, ParamType, ParamTypes,
  types_match, Params,
}
use frameworks_security.Ta.{
  select_storage, compare_bytes, write_front, store_object, touch_object, with_object,
  delete_opened, types_2, Outcome, refuse, finish,
}

-- TA_COMSST_CMD_*
abbrev pub cmd_chk : ℕ
cmd_chk = 0

abbrev pub cmd_del : ℕ
cmd_del = 1

abbrev pub cmd_wr : ℕ
cmd_wr = 2

abbrev pub cmd_rd : ℕ
cmd_rd = 3

abbrev pub cmd_vr : ℕ
cmd_vr = 4

abbrev pub types_session : ParamTypes
types_session = types_2 ParamType.value_input ParamType.none

abbrev pub types_item : ParamTypes
types_item = types_2 ParamType.value_input ParamType.memref_input

abbrev pub types_read : ParamTypes
types_read = types_2 ParamType.value_inout ParamType.memref_inout

-- The size of the array `data` of Comsst_VerifyItem.
abbrev pub data_size : ℕ
data_size = 512

-- COMSST_TA_CreateEntryPoint
pub create_entry_point : TeeResult
create_entry_point = success

-- COMSST_TA_OpenSessionEntryPoint
unfoldable pub open_session : ParamTypes → TeeResult
open_session types = if types_match types types_session then success else error_bad_parameters

-- The object whose name stands at the front of the buffer, in the store that `value.b` selects.
unfoldable pub item_object : Params → Name
unfolding select_storage
item_object ps = record { storage = select_storage ps.p0.b; id = take ps.p0.a ps.p1.buffer }

module _ (t : Tee) where
  open t use {World, open_object}

  -- The call that is given the name reads it in the buffer.
  unfoldable pub in_buffer : Params → Outcome t → Outcome t
  in_buffer ps result = if leb ps.p0.a (length ps.p1.buffer) then result else none

  -- Comsst_CheckItem
  unfoldable pub check_item : ParamTypes → Params → World → Outcome t
  unfolding in_buffer
  check_item types ps w =
      if types_match types types_item
      then in_buffer ps (finish t ps (touch_object t (item_object ps) w))
      else refuse t ps w

  -- Comsst_DeleteItem
  unfoldable pub delete_item : ParamTypes → Params → World → Outcome t
  unfolding in_buffer
  delete_item types ps w =
      if types_match types types_item
      then in_buffer ps
          (finish t ps (delete_opened t (open_object (item_object ps) flags_write_meta w)))
      else refuse t ps w

  -- The parameters of Comsst_ReadItem after TEE_ReadObjectData into the buffer.
  abbrev pub read_params : Params → List ℕ → ℕ → Params
  read_params ps buffer read_len = record ps {
    p0 = record (ps.p0) { b = read_len };
    p1 = record (ps.p1) { buffer = buffer };
  }

  unfoldable pub read_into : Params → List ℕ → World → Outcome t
  read_into ps bytes w = elim (write_front bytes ps.p1.buffer) [
    | none ↦ none
    | some buffer ↦ some (success, read_params ps buffer (length bytes), w)
  ]

  -- Comsst_ReadItem
  unfoldable pub read_item : ParamTypes → Params → World → Outcome t
  unfolding in_buffer read_into
  read_item types ps w =
      if types_match types types_read
      then in_buffer ps (with_object t (item_object ps) (length ps.p1.buffer) (read_into ps) ps w)
      else refuse t ps w

  -- Comsst_WriteItem: the data is what follows the name.
  unfoldable pub write_item : ParamTypes → Params → World → Outcome t
  unfolding in_buffer
  write_item types ps w =
      if types_match types types_item
      then in_buffer ps
          (finish t ps (store_object t (item_object ps) (drop ps.p0.a ps.p1.buffer) w))
      else refuse t ps w

  -- The part of Comsst_VerifyItem between TEE_ReadObjectData and TEE_CloseObject.
  unfoldable pub compare_item : Params → List ℕ → World → Outcome t
  compare_item ps bytes w =
      elim (compare_bytes (length ps.p1.buffer - ps.p0.a) (drop ps.p0.a ps.p1.buffer) bytes) [
        | none ↦ none
        | some res ↦ some (res, ps, w)
      ]

  -- Comsst_VerifyItem
  unfoldable pub verify_item : ParamTypes → Params → World → Outcome t
  unfolding in_buffer compare_item
  verify_item types ps w =
      if types_match types types_item && leb ps.p0.a data_size
      then in_buffer ps (with_object t (item_object ps) data_size (compare_item ps) ps w)
      else refuse t ps w

  -- COMSST_TA_InvokeCommandEntryPoint
  unfoldable pub invoke_command : ℕ → ParamTypes → Params → World → Outcome t
  invoke_command cmd types ps w =
      if cmd == cmd_chk
      then check_item types ps w
      else if cmd == cmd_del
      then delete_item types ps w
      else if cmd == cmd_wr
      then write_item types ps w
      else if cmd == cmd_rd
      then read_item types ps w
      else if cmd == cmd_vr
      then verify_item types ps w
      else refuse t ps w
