-- ===== src/Client/Comsst.antt =====
-- ca/comsst/comsst_ca_api.c: the common secure storage as the normal world uses it.
pub mod Fill
pub mod Session
mod Tests
use frameworks_security.Base.{
  ℕ, suc, ◌+◌, ◌%◌, ◌^◌, Bool, Option, none, some, List, length, leb, if◌then◌else◌, c_string,
  memcpy, strcpy, strcat,
}
use frameworks_security.Tee.{Tee, error_generic, ParamType, ParamTypes, Params}
use frameworks_security.Ta.{types_2}
use frameworks_security.Teec.{Teec, mem_input, mem_inout, whole}
use frameworks_security.Comsst.{cmd_chk, cmd_del, cmd_wr, cmd_rd, cmd_vr}
use frameworks_security.Client.{
  value, memory, op_params, storage_flag, Called, returned, truth, with_params, call_memory,
}

-- MAX_LEN_OF_FULLNAME
abbrev pub max_len_of_fullname : ℕ
max_len_of_fullname = 30

-- `strlen(scope) + strlen(name)`, as a `uint32_t`
unfoldable pub fullname_len : List ℕ → List ℕ → ℕ
unfolding c_string
fullname_len scope name = (length (c_string scope) + length (c_string name)) % 2 ^ 32

abbrev pub types_item : ParamTypes
types_item = types_2 ParamType.value_input (whole mem_input)

abbrev pub types_read : ParamTypes
types_read = types_2 ParamType.value_inout (whole mem_inout)

abbrev pub item_params : ℕ → Bool → List ℕ → Params
item_params name_len is_deletable shm =
    op_params (value name_len (storage_flag is_deletable)) (memory shm)

-- strcat(io_shm.buffer, name), and memcpy(io_shm.buffer + fullname_len, buff, len), if what came
-- before stayed in the memory.
abbrev pub and_name : List ℕ → Option (List ℕ) → Option (List ℕ)
and_name name none = none
and_name name (some shm) = strcat shm name

abbrev pub and_data : ℕ → ℕ → List ℕ → Option (List ℕ) → Option (List ℕ)
and_data at len buff none = none
and_data at len buff (some shm) = memcpy at len buff shm

module _ (scope name : List ℕ) (is_deletable : Bool) where
  -- The full name at the front of the shared memory.
  unfoldable pub name_only : List ℕ → Option Params
  unfolding fullname_len strcpy strcat
  name_only shm =
      with_params (item_params (fullname_len scope name) is_deletable)
        (and_name name (strcpy shm scope))

  -- The full name, and after it the data.
  unfoldable pub name_and_data : List ℕ → ℕ → List ℕ → Option Params
  unfolding fullname_len strcpy strcat
  name_and_data buff len shm =
      with_params (item_params (fullname_len scope name) is_deletable)
        (and_data (fullname_len scope name) len buff (and_name name (strcpy shm scope)))

  -- What comes back: `*out_len = op.params[0].value.b; memcpy(buff, io_shm.buffer, *out_len)`.
  unfoldable pub item_read : List ℕ → Params → Option (List ℕ × ℕ)
  item_read buff ps = elim (memcpy 0 ps.p0.b ps.p1.buffer buff) [
    | none ↦ none
    | some buff' ↦ some (buff', ps.p0.b)
  ]

  module _ {t : Tee} (c : Teec t) where
    open c use {World}

    -- The names that are refused.
    unfoldable pub if_short : {A : Type 0} → A → World → Called World A → Called World A
    if_short a w called =
        if leb (fullname_len scope name) max_len_of_fullname
        then called
        else returned error_generic a w

    -- A command to which the name is handed in a shared memory.
    unfoldable pub name_call : ℕ → World → Called World Unit
    unfolding if_short name_only
    name_call cmd w = if_short tt w (
        call_memory c tt cmd types_item (λ _. some tt) mem_input (suc (fullname_len scope name))
          name_only w)

    -- The same of a name and data.
    unfoldable pub data_call : ℕ → List ℕ → ℕ → World → Called World Unit
    unfolding if_short name_and_data
    data_call cmd buff len w = if_short tt w (
        call_memory c tt cmd types_item (λ _. some tt) mem_input
          ((len + fullname_len scope name) % 2 ^ 32) (name_and_data buff len) w)

    -- The caller's buffer and `*out_len` afterwards.
    unfoldable pub comsst_data_read : List ℕ → ℕ → World → Called World (List ℕ × ℕ)
    unfolding if_short name_only item_read
    comsst_data_read buff out_len w =
        if_short (buff, out_len) w
          (call_memory c (buff, out_len) cmd_rd types_read (item_read buff) mem_inout
            ((out_len + fullname_len scope name) % 2 ^ 32) name_only w)

    unfoldable pub comsst_data_write : List ℕ → ℕ → World → Called World Unit
    unfolding data_call
    comsst_data_write buff len w = data_call cmd_wr buff len w

    unfoldable pub comsst_data_delete : World → Called World Unit
    unfolding name_call
    comsst_data_delete w = name_call cmd_del w

    unfoldable pub is_comsst_data_exited : World → Option (Bool × World)
    unfolding name_call
    is_comsst_data_exited w = truth (name_call cmd_chk w)

    unfoldable pub comsst_data_verify : List ℕ → ℕ → World → Called World Unit
    unfolding data_call
    comsst_data_verify buff len w = data_call cmd_vr buff len w
