-- ===== src/Hello.antt =====
-- The commands of ta/hello_world/hello_world_ta.c: PersistentObjectTest is persistent_object_test and
-- Hello_World_TA_InvokeCommandEntryPoint is invoke_command, where TRACE_PERF is not defined.
pub mod Laws
pub mod Left
mod Tests
use frameworks_security.Base.{
  ℕ, zero, suc, ◌+◌, ◌≡◌, ◌==◌, ◌&&◌, List, [], ◌∷◌, length, bytes_eq, codes, put, ℕ_discrete, ◌⊎◌,
  ◌++◌, if◌then◌else◌,
}
use frameworks_security.Tee.{
  Tee, TeeResult, success, error_bad_parameters, is_success, Name, storage_private, flags_create,
  flags_write_meta, ParamType, ParamTypes, types_match, Opened, opened, Fails,
}
use frameworks_security.Ta.{types_2}

abbrev pub cmd_inc_value : ℕ
cmd_inc_value = 0

abbrev pub cmd_dec_value : ℕ
cmd_dec_value = 1

abbrev pub types_test : ParamTypes
types_test = types_2 ParamType.value_inout ParamType.memref_inout

-- test1.txt, with the zero at its end, in TEE_STORAGE_PRIVATE
abbrev pub test_name : Name
test_name = record { storage = storage_private; id = codes "test1.txt" ++ 0 ∷ [] }

-- `n` bytes that count from `b`.
ascending : ℕ → ℕ → List ℕ
ascending zero b = []
ascending (suc n) b = b ∷ ascending n (suc b)

unfoldable pub initial_data : List ℕ
unfolding ascending
initial_data = ascending 256 0

-- The calls that only this application makes.
pub record Calls (t : Tee) : Type 0 where
  -- TEE_SeekObjectData with TEE_DATA_SEEK_SET
  pub seek_object : ℕ → ℕ → t.World → TeeResult × t.World
  -- TEE_GetObjectInfo1; the size of the data
  pub object_info : ℕ → t.World → TeeResult × ℕ × t.World

module _ (t : Tee) (calls : Calls t) where
  open t use {
    World, create_object, open_object, read_object, write_object, close_object, delete_object,
  }
  open calls use {seek_object, object_info}

  -- The label `exit`.
  abbrev pub close_exit : ℕ → World → TeeResult × World
  close_exit obj w = (success, close_object obj w)

  abbrev pub informed : ℕ → TeeResult × ℕ × World → TeeResult × World
  informed obj (res, size, w) = if is_success res then delete_object obj w else close_exit obj w

  abbrev pub reopened : TeeResult × ℕ × World → TeeResult × World
  reopened (res, obj, w) =
      if is_success res then informed obj (object_info obj w) else close_exit obj w

  -- TEE_MemCompare of the 256 bytes.
  unfoldable pub compared : ℕ → List ℕ → World → TeeResult × World
  compared obj bytes w =
      if bytes_eq bytes initial_data
      then reopened (open_object test_name flags_write_meta (close_object obj w))
      else close_exit obj w

  abbrev pub read_back : ℕ → TeeResult × List ℕ × World → TeeResult × World
  read_back obj (res, bytes, w) =
      if is_success res && length bytes == 256 then compared obj bytes w else close_exit obj w

  abbrev pub sought : ℕ → TeeResult × World → TeeResult × World
  sought obj (res, w) =
      if is_success res then read_back obj (read_object obj 256 w) else close_exit obj w

  abbrev pub written : ℕ → TeeResult × World → TeeResult × World
  written obj (res, w) =
      if is_success res then sought obj (seek_object obj 0 w) else close_exit obj w

  abbrev pub created : TeeResult × ℕ × World → TeeResult × World
  created (res, obj, w) =
      if is_success res then written obj (write_object obj initial_data w) else (res, w)

  unfoldable pub persistent_object_test : ParamTypes → World → TeeResult × World
  persistent_object_test types w =
      if types_match types types_test
      then created (create_object test_name flags_create w)
      else (error_bad_parameters, w)

  unfoldable pub invoke_command : ℕ → ParamTypes → World → TeeResult × World
  unfolding persistent_object_test
  invoke_command cmd_id types w =
      if cmd_id == cmd_inc_value
      then persistent_object_test types w
      else if cmd_id == cmd_dec_value
      then (success, w)
      else (error_bad_parameters, w)
