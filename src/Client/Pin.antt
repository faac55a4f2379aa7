-- ===== src/Client/Pin.antt =====
-- ca/pin/pin_ca_api.c: the PIN as the normal world uses it.
pub mod Spec
pub mod Fill
pub mod Answers
pub mod Service
pub mod Session
mod Tests
use frameworks_security.Base.{
  ℕ, ◌+◌, ◌-◌, ◌%◌, ◌^◌, Bool, Option, none, some, List, ◌==◌, if◌then◌else◌, memcpy,
}
use frameworks_security.Tee.{Tee, TeeResult, ParamType, ParamTypes, Params}
use frameworks_security.Ta.{types_2}
use frameworks_security.Teec.{Teec, MemFlags, mem_input, mem_output, whole}
use frameworks_security.Pin.{cmd_store, cmd_verify, cmd_change, cmd_getsha256, cmd_chk, cmd_del}
use frameworks_security.Client.{
  value, memory, op_params, storage_flag, Called, returned, truth, with_params, call, call_memory,
}

-- A value and TEEC_MEMREF_WHOLE.
abbrev pub types_memory : MemFlags → ParamTypes
types_memory f = types_2 ParamType.value_input (whole f)

abbrev pub types_value : ParamTypes
types_value = types_2 ParamType.value_input ParamType.none

abbrev pub pin_params : Bool → ℕ → List ℕ → Params
pin_params is_deletable old_len buffer =
    op_params (value (storage_flag is_deletable) old_len) (memory buffer)

-- The parameters of a command without a PIN.
abbrev pub flag_params : Bool → Params
flag_params is_deletable = op_params (value (storage_flag is_deletable) 0) (value 0 0)

-- memcpy(io_shm.buffer, buff, len)
unfoldable pub one_pin : Bool → List ℕ → ℕ → List ℕ → Option Params
one_pin is_deletable buff len shm = with_params (pin_params is_deletable 0) (memcpy 0 len buff shm)

-- memcpy(io_shm.buffer + oldlen, new, newlen), after the old PIN was copied.
abbrev pub and_new : List ℕ → ℕ → ℕ → Option (List ℕ) → Option (List ℕ)
and_new new new_len old_len none = none
and_new new new_len old_len (some shm) = memcpy old_len new_len new shm

unfoldable pub two_pins : Bool → List ℕ → ℕ → List ℕ → ℕ → List ℕ → Option Params
two_pins is_deletable old old_len new new_len shm =
    with_params (pin_params is_deletable old_len)
      (and_new new new_len old_len (memcpy 0 old_len old shm))

-- (uint32_t)-1
abbrev pub minus_one : TeeResult
minus_one = TeeResult.other (2 ^ 32 - 1)

module _ {t : Tee} (c : Teec t) where
  open c use {World}

  -- A command to which one PIN is handed in a shared memory.
  unfoldable pub pin_call : ℕ → Bool → List ℕ → ℕ → World → Called World Unit
  unfolding one_pin
  pin_call cmd is_deletable buff len w =
      call_memory c tt cmd (types_memory mem_input) (λ _. some tt) mem_input len
        (one_pin is_deletable buff len) w

  unfoldable pub pin_store : Bool → List ℕ → ℕ → World → Called World Unit
  unfolding pin_call
  pin_store is_deletable buff len w = pin_call cmd_store is_deletable buff len w

  unfoldable pub pin_verify : Bool → List ℕ → ℕ → World → Called World Unit
  unfolding pin_call
  pin_verify is_deletable buff len w = pin_call cmd_verify is_deletable buff len w

  -- The size of the memory is a sum of two `uint32_t`.
  unfoldable pub pin_change : Bool → List ℕ → ℕ → List ℕ → ℕ → World → Called World Unit
  unfolding two_pins
  pin_change is_deletable old old_len new new_len w =
      call_memory c tt cmd_change (types_memory mem_input) (λ _. some tt) mem_input
        ((old_len + new_len) % 2 ^ 32) (two_pins is_deletable old old_len new new_len) w

  -- The result, and the caller's buffer.
  unfoldable pub pin_getsha256 : Bool → List ℕ → ℕ → World → Called World (List ℕ)
  pin_getsha256 is_deletable buff len w =
      if len == 32
      then call_memory c buff cmd_getsha256 (types_memory mem_output)
          (λ ps. memcpy 0 32 ps.p1.buffer buff) mem_output 32
          (λ shm. some (pin_params is_deletable 0 shm)) w
      else returned minus_one buff w

  -- A command with a value only.
  unfoldable pub value_call : ℕ → Bool → World → Called World Unit
  value_call cmd is_deletable w =
      call c tt cmd types_value (λ _. some tt) (flag_params is_deletable) w

  unfoldable pub pin_is_exist : Bool → World → Option (Bool × World)
  unfolding value_call
  pin_is_exist is_deletable w = truth (value_call cmd_chk is_deletable w)

  unfoldable pub pin_delete : Bool → World → Called World Unit
  unfolding value_call
  pin_delete is_deletable w = value_call cmd_del is_deletable w
