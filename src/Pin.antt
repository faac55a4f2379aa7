-- ===== src/Pin.antt =====
-- ta/pin/pin_ta.c and include/pin_ta.h: the trusted application that keeps a PIN in one of two
-- stores. Each command is a function of the parameters and the state of the TEE; `none` is a read
-- or a write outside a buffer that the normal world passed.
pub mod Store
pub mod Verify
pub mod Change
pub mod Digest
pub mod Frame
pub mod Bounds
pub mod Session
pub mod Guesses
mod Tests
use frameworks_security.Base.{
  ℕ, Bool, true, false, Option, none, some, List, [], ◌∷◌, drop, length, ◌==◌, if◌then◌else◌,
}
use frameworks_security.Tee.{
  Tee, TeeResult, success, error_generic, error_bad_parameters, is_success, Name, flags_write_meta,
  ParamType, ParamTypes, types_match, Params,
}
use frameworks_security.Ta.{
  compare_bytes, verdict, delete_opened, set_buffer, types_2, Outcome, refuse, finish,
  select_storage, bytes_match, write_front, store_object, touch_object, with_object,
}

-- pin_name, without its final zero: "PIN".
abbrev pub pin_name : List ℕ
pin_name = 0x50 ∷ 0x49 ∷ 0x4e ∷ []

-- The object that `params[0].value.a` selects.
unfoldable pub pin_object : ℕ → Name
unfolding select_storage
pin_object a = record { storage = select_storage a; id = pin_name }

-- TA_PIN_CMD_*
abbrev pub cmd_store : ℕ
cmd_store = 0

abbrev pub cmd_verify : ℕ
cmd_verify = 1

abbrev pub cmd_change : ℕ
cmd_change = 2

abbrev pub cmd_getsha256 : ℕ
cmd_getsha256 = 3

abbrev pub cmd_chk : ℕ
cmd_chk = 4

abbrev pub cmd_del : ℕ
cmd_del = 5

abbrev pub types_session : ParamTypes
types_session = types_2 ParamType.value_input ParamType.none

abbrev pub types_buffer : ParamTypes
types_buffer = types_2 ParamType.value_input ParamType.memref_input

abbrev pub types_output : ParamTypes
types_output = types_2 ParamType.value_input ParamType.memref_output

-- PIN_TA_CreateEntryPoint
pub create_entry_point : TeeResult
create_entry_point = success

-- PIN_TA_OpenSessionEntryPoint
unfoldable pub open_session : ParamTypes → TeeResult
open_session types = if types_match types types_session then success else error_bad_parameters

module _ (t : Tee) where
  open t use {
    World, open_object, delete_object, allocate_digest, digest_update, digest_do_final,
    free_operation,
  }

  -- Pin_Store
  unfoldable pub pin_store : ParamTypes → Params → World → Outcome t
  pin_store types ps w =
      if types_match types types_buffer
      then finish t ps (store_object t (pin_object ps.p0.a) ps.p1.buffer w)
      else refuse t ps w

  -- The part of Pin_Verify and Pin_Change between TEE_ReadObjectData and TEE_CloseObject.
  unfoldable pub check_pin : ℕ → Params → List ℕ → World → Outcome t
  unfolding compare_bytes
  check_pin expected ps bytes w = elim (compare_bytes expected ps.p1.buffer bytes) [
    | none ↦ none
    | some res ↦ some (res, ps, w)
  ]

  -- Pin_Verify
  unfoldable pub pin_verify : ParamTypes → Params → World → Outcome t
  pin_verify types ps w =
      if types_match types types_buffer
      then with_object t (pin_object ps.p0.a) 32 (check_pin (length ps.p1.buffer) ps) ps w
      else refuse t ps w

  -- "write new pin"
  unfoldable pub replace_pin : Outcome t → Outcome t
  replace_pin none = none
  replace_pin (some (res, ps, w)) =
      if is_success res
      then finish t ps (store_object t (pin_object ps.p0.a) (drop ps.p0.b ps.p1.buffer) w)
      else some (res, ps, w)

  -- Pin_Change: the buffer holds the old PIN, `value.b` bytes long, and after it the new one.
  unfoldable pub pin_change : ParamTypes → Params → World → Outcome t
  unfolding replace_pin
  pin_change types ps w =
      if types_match types types_buffer
      then replace_pin (with_object t (pin_object ps.p0.a) 32 (check_pin ps.p0.b ps) ps w)
      else refuse t ps w

  -- TEE_DigestDoFinal into the buffer, and the check of the length that it reports.
  unfoldable pub digest_result : Params → TeeResult × List ℕ × World → Outcome t
  digest_result ps (res, bytes, w) = elim (write_front bytes ps.p1.buffer) [
    | none ↦ none
    | some buffer ↦
        some (if length bytes == 32 then res else error_generic, set_buffer ps buffer, w)
  ]

  -- The label `hash_end`: the operation is freed if there is one.
  unfoldable pub hash_end : ℕ → Outcome t → Outcome t
  hash_end operation none = none
  hash_end operation (some (res, ps, w)) =
      some (res, ps, if operation == 0 then w else free_operation operation w)

  unfoldable pub digest_with : Params → List ℕ → TeeResult × ℕ × World → Outcome t
  unfolding hash_end digest_result
  digest_with ps bytes (res, operation, w) = hash_end operation (
      if is_success res
      then digest_result ps (digest_do_final operation 32 (digest_update operation bytes w))
      else some (res, ps, w))

  unfoldable pub digest_pin : Params → List ℕ → World → Outcome t
  unfolding digest_with
  digest_pin ps bytes w =
      if length bytes == 0
      then some (error_generic, ps, w)
      else digest_with ps bytes (allocate_digest w)

  -- Pin_GetSha256
  unfoldable pub pin_get_sha256 : ParamTypes → Params → World → Outcome t
  pin_get_sha256 types ps w =
      if types_match types types_output
      then with_object t (pin_object ps.p0.a) 32 (digest_pin ps) ps w
      else refuse t ps w

  -- Pin_Check
  unfoldable pub pin_check : ParamTypes → Params → World → Outcome t
  pin_check types ps w =
      if types_match types types_session
      then finish t ps (touch_object t (pin_object ps.p0.a) w)
      else refuse t ps w

  -- Pin_Delete
  unfoldable pub pin_delete : ParamTypes → Params → World → Outcome t
  unfolding delete_opened
  pin_delete types ps w =
      if types_match types types_session
      then finish t ps (delete_opened t (open_object (pin_object ps.p0.a) flags_write_meta w))
      else refuse t ps w

  -- PIN_TA_InvokeCommandEntryPoint
  unfoldable pub invoke_command : ℕ → ParamTypes → Params → World → Outcome t
  invoke_command cmd types ps w =
      if cmd == cmd_store
      then pin_store types ps w
      else if cmd == cmd_verify
      then pin_verify types ps w
      else if cmd == cmd_change
      then pin_change types ps w
      else if cmd == cmd_getsha256
      then pin_get_sha256 types ps w
      else if cmd == cmd_chk
      then pin_check types ps w
      else if cmd == cmd_del
      then pin_delete types ps w
      else refuse t ps w
