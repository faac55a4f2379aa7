-- ===== src/Triad.antt =====
-- ta/triad/triad_ta.c and include/triad_ta.h: the trusted application that keeps the device's key
-- and identity. The commands that store and load them are here, and the HMAC with the key is in
-- Triad/Hmac; `none` is an access outside the buffer.
pub mod Secret
pub mod Hmac
pub mod Header
pub mod Gcm
pub mod Dispatch
mod Tests
use frameworks_security.Base.{
  ℕ, Bool, ◌&&◌, Option, none, some, List, [], ◌∷◌, length, ◌==◌, if◌then◌else◌,
}
use frameworks_security.Tee.{
  Tee, TeeResult, success, error_bad_parameters, storage_private, Name, ParamType, ParamTypes,
  types_match, Params,
}
use frameworks_security.Ta.{
  write_front, store_object, with_object, types_2, Outcome, refuse, finish,
}

-- TA_OBJECT_NAME_KEY, an array of char with its final zero.
abbrev pub key_object : Name
key_object = record {
  storage = storage_private;
  id = 116 ∷ 114 ∷ 105 ∷ 97 ∷ 100 ∷ 95 ∷ 107 ∷ 101 ∷ 121 ∷ 0 ∷ [];
}

-- TA_OBJECT_NAME_DID
abbrev pub did_object : Name
did_object = record {
  storage = storage_private;
  id = 116 ∷ 114 ∷ 105 ∷ 97 ∷ 100 ∷ 95 ∷ 100 ∷ 105 ∷ 100 ∷ 0 ∷ [];
}

abbrev pub key_size : ℕ
key_size = 16

abbrev pub did_size : ℕ
did_size = 8

abbrev pub types_session : ParamTypes
types_session = types_2 ParamType.value_input ParamType.none

abbrev pub types_store : ParamTypes
types_store = types_2 ParamType.memref_input ParamType.none

abbrev pub types_load : ParamTypes
types_load = types_2 ParamType.memref_output ParamType.none

-- TRIAD_TA_CreateEntryPoint
pub create_entry_point : TeeResult
create_entry_point = success

-- TRIAD_TA_OpenSessionEntryPoint
unfoldable pub open_session : ParamTypes → TeeResult
open_session types = if types_match types types_session then success else error_bad_parameters

abbrev pub set_buffer : Params → List ℕ → Params
set_buffer ps buffer = record ps { p0 = record (ps.p0) { buffer = buffer } }

module _ (t : Tee) where
  open t use {World}

  -- What TA_Store_Key and TA_Store_DID have in common: the object, and the size that is demanded.
  unfoldable pub store_secret : Name → ℕ → ParamTypes → Params → World → Outcome t
  store_secret n size types ps w =
      if types_match types types_store && length ps.p0.buffer == size
      then finish t ps (store_object t n ps.p0.buffer w)
      else refuse t ps w

  -- TA_Store_Key
  unfoldable pub store_key : ParamTypes → Params → World → Outcome t
  unfolding store_secret
  store_key types ps w = store_secret key_object key_size types ps w

  -- TA_Store_DID
  unfoldable pub store_did : ParamTypes → Params → World → Outcome t
  unfolding store_secret
  store_did types ps w = store_secret did_object did_size types ps w

  -- TEE_ReadObjectData into the buffer. A length other than the size that was asked for is logged
  -- only.
  unfoldable pub load_into : Params → List ℕ → World → Outcome t
  load_into ps bytes w = elim (write_front bytes ps.p0.buffer) [
    | none ↦ none
    | some buffer ↦ some (success, set_buffer ps buffer, w)
  ]

  -- What TA_Load_Key and TA_Load_DID have in common.
  unfoldable pub load_secret : Name → ℕ → ParamTypes → Params → World → Outcome t
  unfolding load_into
  load_secret n size types ps w =
      if types_match types types_load && length ps.p0.buffer == size
      then with_object t n size (load_into ps) ps w
      else refuse t ps w

  -- TA_Load_Key
  unfoldable pub load_key : ParamTypes → Params → World → Outcome t
  unfolding load_secret
  load_key types ps w = load_secret key_object key_size types ps w

  -- TA_Load_DID
  unfoldable pub load_did : ParamTypes → Params → World → Outcome t
  unfolding load_secret
  load_did types ps w = load_secret did_object did_size types ps w
