-- ===== src/Tee/Types.antt =====
-- The data that passes between a trusted application and the TEE Internal Core API, as the
-- sources under ta/ use it.
use frameworks_security.Base.{
  ℕ, Bool, true, false, Option, List, ◌≡◌, refl, ◌≢◌, arith, ℕ_discrete, is_yes, is_yes_sound,
  is_yes_complete,
}

-- TEE_Result: the codes that the sources name, and any other code that the API returns.
pub data TeeResult : Type 0 where
  success error_generic error_bad_parameters error_security : TeeResult
  other : ℕ → TeeResult

abbrev pub is_success : TeeResult → Bool
is_success success = true
is_success _ = false

pub is_success-false : (r : TeeResult) → r ≢ success → is_success r ≡ false
is_success-false success h = ground arith
is_success-false _ h = ground arith

-- TEE_STORAGE_PRIVATE and TEE_STORAGE_USER.
pub data Storage : Type 0 where
  storage_private storage_user : Storage

-- What names a persistent object.
pub record Name : Type 0 where
  pub storage : Storage
  pub id : List ℕ

unfoldable pub Name-discrete : Discrete Name
Name-discrete = hlevel ℕ_discrete

-- The flags that the sources join: TEE_DATA_FLAG_ACCESS_READ, _WRITE, _WRITE_META, _OVERWRITE.
pub record Flags : Type 0 where
  pub access_read : Bool
  pub access_write : Bool
  pub access_write_meta : Bool
  pub overwrite : Bool

abbrev pub flags_create : Flags
flags_create = record {
  access_read = true;
  access_write = true;
  access_write_meta = true;
  overwrite = true;
}

abbrev pub flags_read : Flags
flags_read = record {
  access_read = true;
  access_write = false;
  access_write_meta = false;
  overwrite = false;
}

abbrev pub flags_write_meta : Flags
flags_write_meta = record {
  access_read = false;
  access_write = false;
  access_write_meta = true;
  overwrite = false;
}

-- The four types that TEE_PARAM_TYPES packs into one word.
pub data ParamType : Type 0 where
  none value_input value_output value_inout memref_input memref_output memref_inout : ParamType

pub record ParamTypes : Type 0 where
  pub t0 : ParamType
  pub t1 : ParamType
  pub t2 : ParamType
  pub t3 : ParamType

unfoldable pub ParamTypes-discrete : Discrete ParamTypes
ParamTypes-discrete = hlevel

-- `param_types == exp_param_types`
unfoldable pub types_match : ParamTypes → ParamTypes → Bool
unfolding ParamTypes-discrete is_yes
types_match a b = is_yes (ParamTypes-discrete a b)

pub types_match_refl : (a : ParamTypes) → types_match a a ≡ true
unfolding types_match
types_match_refl a = is_yes_complete (ParamTypes-discrete a a) refl

pub types_match_sound : (a b : ParamTypes) → types_match a b ≡ true → a ≡ b
unfolding types_match
types_match_sound a b = is_yes_sound (ParamTypes-discrete a b)

-- TEE_Param is a union: `a` and `b` are its view as `value`, `buffer` (whose length is `size`) its
-- view as `memref`.
pub record Param : Type 0 where
  pub a : ℕ
  pub b : ℕ
  pub buffer : List ℕ

pub record Params : Type 0 where
  pub p0 : Param
  pub p1 : Param
  pub p2 : Param
  pub p3 : Param

-- What an open handle stands for.
pub record Opened : Type 0 where
  pub name : Name
  pub flags : Flags
  pub position : ℕ

-- The state behind the API: the stored objects, the open handles, and the data taken in by each
-- digest operation.
pub record Secure : Type 0 where
  pub objects : Name → Option (List ℕ)
  pub handles : ℕ → Option Opened
  pub digests : ℕ → Option (List ℕ)
