-- ===== src/Ta.antt =====
-- What the trusted applications under ta/ have in common: the result of a command, the choice of a
-- store, the loop that compares two buffers, and the call sequences that each of them repeats.
pub mod Compare
pub mod Laws
pub mod Reading
pub mod Device
use frameworks_security.Base.{
  ℕ, ◌+◌, Bool, true, false, Option, none, some, List, [], ◌∷◌, ◌++◌, drop, length, leb, ◌==◌,
  if◌then◌else◌,
}
use frameworks_security.Tee.{
  ParamType, ParamTypes, Params, success, error_generic, error_bad_parameters, Tee, TeeResult,
  is_success, Storage, storage_private, storage_user, Name, Flags, flags_create, flags_read,
}

-- `if (value == 0) TEE_STORAGE_PRIVATE … else TEE_STORAGE_USER …`
unfoldable pub select_storage : ℕ → Storage
select_storage v = if v == 0 then storage_private else storage_user

-- `for (i = 0; i < read_len; i++) if (data[i] != buffer[i]) …`, over the bytes read and the buffer.
-- `none` is a read past the end of the buffer.
unfoldable pub bytes_match : List ℕ → List ℕ → Option Bool
bytes_match [] buffer = some true
bytes_match (d ∷ data') [] = none
bytes_match (d ∷ data') (x ∷ buffer) =
    let rest = bytes_match data' buffer in if d == x then rest else some false

-- The outcome of a comparison, as the loops of Pin_Verify and Pin_Change leave it in `res`.
unfoldable pub verdict : Option Bool → Option TeeResult
verdict none = none
verdict (some true) = some success
verdict (some false) = some error_generic

-- The stored bytes against the first `expected` bytes of the buffer.
unfoldable pub compare_bytes : ℕ → List ℕ → List ℕ → Option TeeResult
unfolding verdict
compare_bytes expected buffer bytes =
    if length bytes == expected then verdict (bytes_match bytes buffer) else some error_generic

abbrev pub set_buffer : Params → List ℕ → Params
set_buffer ps buffer = record ps { p1 = record (ps.p1) { buffer = buffer } }

-- TEE_PARAM_TYPES(t0, t1, NONE, NONE)
abbrev pub types_2 : ParamType → ParamType → ParamTypes
types_2 t0 t1 = record { t0 = t0; t1 = t1; t2 = ParamType.none; t3 = ParamType.none }

-- Bytes written to the front of a buffer. `none` is a write past its end.
unfoldable pub write_front : List ℕ → List ℕ → Option (List ℕ)
write_front bytes buffer =
    if leb (length bytes) (length buffer) then some (bytes ++ drop (length bytes) buffer) else none

module _ (t : Tee) where
  open t use {
    World, create_object, open_object, read_object, write_object, close_object, delete_object,
  }

  -- TEE_WriteObjectData and TEE_CloseObject, after a TEE_CreatePersistentObject that succeeded.
  unfoldable pub write_and_close : List ℕ → TeeResult × ℕ × World → TeeResult × World
  write_and_close bytes (res, obj, w) =
      let (res', w') = write_object obj bytes w in
      if is_success res then (res', close_object obj w') else (res, w)

  -- Create or overwrite an object, write it and close it.
  unfoldable pub store_object : Name → List ℕ → World → TeeResult × World
  unfolding write_and_close
  store_object n bytes w = write_and_close bytes (create_object n flags_create w)

  -- Open an object and close it again.
  unfoldable pub touch_object : Name → World → TeeResult × World
  touch_object n w =
      let (res, obj, w') = open_object n flags_read w in
      if is_success res then (res, close_object obj w') else (res, w')

  abbrev pub Outcome : Type 0
  Outcome = Option (TeeResult × Params × World)

  abbrev pub refuse : Params → World → Outcome
  refuse ps w = some (error_bad_parameters, ps, w)

  abbrev pub finish : Params → TeeResult × World → Outcome
  finish ps (res, w) = some (res, ps, w)

  -- TEE_CloseAndDeletePersistentObject1, after a TEE_OpenPersistentObject that succeeded.
  unfoldable pub delete_opened : TeeResult × ℕ × World → TeeResult × World
  delete_opened (res, obj, w) = if is_success res then delete_object obj w else (res, w)

  module _ {A : Type 0} where
    -- The label `exit`: TEE_CloseObject.
    abbrev pub close_after : ℕ → Option (TeeResult × A × World) → Option (TeeResult × A × World)
    close_after obj none = none
    close_after obj (some (res, a, w)) = some (res, a, close_object obj w)

    after_read :
        (List ℕ → World → Option (TeeResult × A × World))
        → A
        → TeeResult × List ℕ × World
        → Option (TeeResult × A × World)
    after_read body a (res, bytes, w) = if is_success res then body bytes w else some (res, a, w)

    -- Open an object, read up to `size` bytes of it, run `body` on them, and close the object, also
    -- when the read fails. `a` is what the caller's buffers hold where `body` does not run.
    unfoldable pub with_object :
        Name
        → ℕ
        → (List ℕ → World → Option (TeeResult × A × World))
        → A
        → World
        → Option (TeeResult × A × World)
    unfolding after_read
    with_object n size body a w =
        let (res, obj, w') = open_object n flags_read w in
        if is_success res
        then close_after obj (after_read body a (read_object obj size w'))
        else some (res, a, w')
