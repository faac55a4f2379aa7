-- ===== src/Client.antt =====
-- What the client programs under ca/ have in common: a context, a shared memory, a session and one
-- command, each closed again on every path.
pub mod Laws
pub mod Answer
pub mod Pin
pub mod Comsst
pub mod Triad
use frameworks_security.Base.{ℕ, Bool, Option, none, some, List, if◌then◌else◌}
use frameworks_security.Tee.{Tee, TeeResult, is_success, ParamType, ParamTypes, Params, Param}
use frameworks_security.Ta.{types_2}
use frameworks_security.Teec.{Teec, MemFlags}

-- The parameter types at TEEC_OpenSession: one value.
abbrev pub session_types : ParamTypes
session_types = types_2 ParamType.value_input ParamType.none

-- TEEC_Operation after `memset(&op, 0, sizeof(op))`.
abbrev pub value : ℕ → ℕ → Param
value a b = record { a = a; b = b; buffer = List.[] }

abbrev pub memory : List ℕ → Param
memory buffer = record { a = 0; b = 0; buffer = buffer }

abbrev pub op_params : Param → Param → Params
op_params p0 p1 = record { p0 = p0; p1 = p1; p2 = value 0 0; p3 = value 0 0 }

-- `is_deletable ? 1 : 0`
abbrev pub storage_flag : Bool → ℕ
storage_flag Bool.true = 1
storage_flag Bool.false = 0

-- The result of a call, what it leaves in the caller's memory, and the state; `none` is an access
-- outside a buffer.
abbrev pub Called : Type 0 → Type 0 → Type 0
Called W A = Option (TeeResult × A × W)

module _ {W A : Type 0} where
  -- A cleanup on every path.
  abbrev pub and_then : (W → W) → Called W A → Called W A
  and_then undo none = none
  and_then undo (some (res, a, w)) = some (res, a, undo w)

  -- The end of a body: the caller's memory is written if the command succeeded.
  abbrev pub copied : TeeResult → Option A → W → Called W A
  copied res none w = none
  copied res (some a) w = some (res, a, w)

  abbrev pub after_invoke : (Params → Option A) → A → Option (TeeResult × Params × W) → Called W A
  after_invoke out a none = none
  after_invoke out a (some (res, ps, w)) =
      if is_success res then copied res (out ps) w else some (res, a, w)

  -- A result of a call that does not come from the application.
  abbrev pub returned : TeeResult → A → W → Called W A
  returned res a w = some (res, a, w)

-- `if (res != TEEC_SUCCESS) return false; else return true;`
abbrev pub truth : {W A : Type 0} → Called W A → Option (Bool × W)
truth none = none
truth (some (res, _, w)) = some (is_success res, w)

-- The parameters that were made from a buffer, or an access outside it.
abbrev pub with_params : (List ℕ → Params) → Option (List ℕ) → Option Params
with_params f none = none
with_params f (some buffer) = some (f buffer)

module _ {t : Tee} (c : Teec t) {A : Type 0} (a : A) where
  open c use {World}

  -- TEEC_InitializeContext, the body, and TEEC_FinalizeContext under `exit_finalize`.
  unfoldable pub in_context : (ℕ → World → Called World A) → TeeResult × ℕ × World → Called World A
  in_context body (res, ctx, w) =
      if is_success res then and_then (c.finalize_context ctx) (body ctx w) else some (res, a, w)

  -- The same of TEEC_AllocateSharedMemory and TEEC_ReleaseSharedMemory under `exit_free_mem`.
  in_memory : (List ℕ → World → Called World A) → TeeResult × ℕ × List ℕ × World → Called World A
  in_memory body (res, shm, buffer, w) =
      if is_success res then and_then (c.release_memory shm) (body buffer w) else some (res, a, w)

  -- The same of TEEC_OpenSession and TEEC_CloseSession under `exit_close_session`.
  in_session : (ℕ → World → Called World A) → TeeResult × ℕ × World → Called World A
  in_session body (res, sess, w) =
      if is_success res then and_then (c.close_session sess) (body sess w) else some (res, a, w)

  module _ (cmd : ℕ) (types : ParamTypes) (out : Params → Option A) where
    -- A session with one command; the parameters that come back are handed to `out`.
    unfoldable pub in_one_session : ℕ → Params → World → Called World A
    unfolding in_session
    in_one_session ctx ps w =
        in_session (λ sess w'. after_invoke out a (c.invoke_command sess cmd types ps w'))
          (c.open_session ctx session_types w)

    -- A command without a shared memory.
    unfoldable pub call : Params → World → Called World A
    unfolding in_context in_one_session
    call ps w = in_context (λ ctx w'. in_one_session ctx ps w') (c.initialize_context w)

    abbrev pub filled : ℕ → World → Option Params → Called World A
    filled ctx w none = none
    filled ctx w (some ps) = in_one_session ctx ps w

    -- A command with a shared memory, from whose buffer `fill` makes the parameters.
    unfoldable pub call_memory : MemFlags → ℕ → (List ℕ → Option Params) → World → Called World A
    unfolding in_context in_memory in_one_session
    call_memory f size fill w =
        in_context
          (λ ctx w'.
            in_memory (λ buffer w''. filled ctx w'' (fill buffer))
              (c.allocate_memory ctx f size w'))
          (c.initialize_context w)
