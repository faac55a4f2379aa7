-- ===== src/Client/Triad.antt =====
-- ca/triad/triad_ca_api.c: the device's key and identity as the normal world uses them.
pub mod Gcm
pub mod Leak
pub mod Session
pub mod Local
pub mod Tool
mod Tests
use frameworks_security.Base.{
  ℕ, ◌&&◌, not, some, List, length, replicate, ltb, ◌==◌, if◌then◌else◌, memcpy,
}
use frameworks_security.Tee.{Tee, error_generic, ParamType, ParamTypes, Params}
use frameworks_security.Ta.{types_2}
use frameworks_security.Teec.{Teec, MemFlags, mem_input, mem_output, mem_inout, whole}
use frameworks_security.Triad.Dispatch.{
  cmd_store_did, cmd_load_did, cmd_store_key, cmd_load_key, cmd_get_hmac,
}
use frameworks_security.Client.{
  value, memory, op_params, Called, returned, with_params, call_memory,
}

abbrev pub types_memory : MemFlags → ParamTypes
types_memory f = types_2 (whole f) ParamType.none

abbrev pub types_hmac : ParamTypes
types_hmac = types_2 (whole mem_inout) ParamType.value_input

-- memset(io_shm.buffer, 0, io_shm.size)
abbrev pub cleared : List ℕ → List ℕ
cleared shm = replicate (length shm) 0

abbrev pub secret_params : List ℕ → Params
secret_params shm = op_params (memory shm) (value 0 0)

abbrev pub hmac_params : ℕ → List ℕ → Params
hmac_params in_len shm = op_params (memory shm) (value in_len 0)

module _ {t : Tee} (c : Teec t) where
  open c use {World}

  -- What triad_store_did and triad_store_key have in common: the command and the size demanded.
  unfoldable pub store_call : ℕ → ℕ → List ℕ → ℕ → World → Called World Unit
  store_call cmd size secret len w =
      if len == size
      then call_memory c tt cmd (types_memory mem_input) (λ _. some tt) mem_input len
          (λ shm. with_params secret_params (memcpy 0 len secret (cleared shm))) w
      else returned error_generic tt w

  -- What triad_load_did and triad_load_key have in common; the caller's buffer afterwards.
  unfoldable pub load_call : ℕ → ℕ → List ℕ → ℕ → World → Called World (List ℕ)
  load_call cmd size buff len w =
      if len == size
      then call_memory c buff cmd (types_memory mem_output) (λ ps. memcpy 0 len ps.p0.buffer buff)
          mem_output len (λ shm. some (secret_params (cleared shm))) w
      else returned error_generic buff w

  unfoldable pub triad_store_did : List ℕ → ℕ → World → Called World Unit
  unfolding store_call
  triad_store_did did len w = store_call cmd_store_did 8 did len w

  unfoldable pub triad_load_did : List ℕ → ℕ → World → Called World (List ℕ)
  unfolding load_call
  triad_load_did did len w = load_call cmd_load_did 8 did len w

  unfoldable pub triad_store_key : List ℕ → ℕ → World → Called World Unit
  unfolding store_call
  triad_store_key key len w = store_call cmd_store_key 16 key len w

  unfoldable pub triad_load_key : List ℕ → ℕ → World → Called World (List ℕ)
  unfolding load_call
  triad_load_key key len w = load_call cmd_load_key 16 key len w

  -- The size of the memory, which has to take the input and the 32 bytes of the result.
  abbrev pub hmac_room : ℕ → ℕ
  hmac_room in_len = if ltb in_len 32 then 32 else in_len

  unfoldable pub triad_get_hmac : List ℕ → ℕ → List ℕ → ℕ → World → Called World (List ℕ)
  triad_get_hmac input in_len output out_len w =
      if not (in_len == 0) && out_len == 32
      then call_memory c output cmd_get_hmac types_hmac (λ ps. memcpy 0 32 ps.p0.buffer output)
          mem_inout (hmac_room in_len)
          (λ shm. with_params (hmac_params in_len) (memcpy 0 in_len input (cleared shm))) w
      else returned error_generic output w
