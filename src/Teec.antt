-- ===== src/Teec.antt =====
-- The TEE Client API as ca/ uses it: an interface as a parameter, with the behaviour that its
-- specification documents for a client of one trusted application.
pub mod Local
use frameworks_security.Base.{
  ℕ, ◌≡◌, ◌≢◌, ◌⊎◌, Bool, true, false, Option, none, some, List, length, put, ℕ_discrete,
}
use frameworks_security.Tee.{Tee, TeeResult, success, ParamType, ParamTypes, Params}
use frameworks_security.Ta.{Outcome}

-- TEEC_MEM_INPUT, TEEC_MEM_OUTPUT and both.
pub data MemFlags : Type 0 where
  mem_input mem_output mem_inout : MemFlags

-- TEEC_MEMREF_WHOLE of a memory with the flags, as the application sees it.
abbrev pub whole : MemFlags → ParamType
whole mem_input = ParamType.memref_input
whole mem_output = ParamType.memref_output
whole mem_inout = ParamType.memref_inout

-- The entry points of a trusted application.
pub record App (t : Tee) : Type 0 where
  pub open_session : ParamTypes → TeeResult
  pub invoke : ℕ → ParamTypes → Params → t.World → Outcome t

-- What a client holds: its contexts, its shared memories and its sessions.
pub record Held : Type 0 where
  pub contexts : ℕ → Bool
  pub memories : ℕ → Bool
  pub sessions : ℕ → Bool

pub record Teec (t : Tee) : Type 1 where
  pub World : Type 0
  pub held : World → Held
  -- the state of the TEE that the client talks to
  pub tee : World → t.World
  -- TEEC_InitializeContext
  pub initialize_context : World → TeeResult × ℕ × World
  -- TEEC_AllocateSharedMemory of a size; the memory, and what its buffer holds
  pub allocate_memory : ℕ → MemFlags → ℕ → World → TeeResult × ℕ × List ℕ × World
  -- TEEC_OpenSession
  pub open_session : ℕ → ParamTypes → World → TeeResult × ℕ × World
  -- TEEC_InvokeCommand; `none` is an access of the application outside a buffer
  pub invoke_command : ℕ → ℕ → ParamTypes → Params → World → Option (TeeResult × Params × World)
  -- TEEC_CloseSession, TEEC_ReleaseSharedMemory, TEEC_FinalizeContext
  pub close_session : ℕ → World → World
  pub release_memory : ℕ → World → World
  pub finalize_context : ℕ → World → World

module _ {t : Tee} (c : Teec t) where
  open c use {World, held, tee}

  -- Nothing that a client holds has changed, nor has the TEE.
  abbrev pub Same : World → World → Type 0
  Same w w' = (held w' ≡ held w) × (tee w' ≡ tee w)

  -- A call that may fail, where `Fallible` says whether it can.
  abbrev pub Fails : Type 0 → TeeResult → World → World → Type 0
  Fails Fallible r w w' = Fallible × (r ≢ success) × Same w w'

  abbrev pub Initializes : Type 0 → World → TeeResult × ℕ × World → Type 0
  Initializes Fallible w (r, ctx, w') =
      ((r ≡ success)
        × ((held w).contexts ctx ≡ false)
        × (held w' ≡ record (held w) { contexts = put ℕ_discrete (held w).contexts ctx true })
        × (tee w' ≡ tee w))
      ⊎ Fails Fallible r w w'

  abbrev pub Allocates : Type 0 → ℕ → World → TeeResult × ℕ × List ℕ × World → Type 0
  Allocates Fallible size w (r, shm, buffer, w') =
      ((r ≡ success)
        × ((held w).memories shm ≡ false)
        × (held w' ≡ record (held w) { memories = put ℕ_discrete (held w).memories shm true })
        × (tee w' ≡ tee w)
        × (length buffer ≡ size))
      ⊎ Fails Fallible r w w'

  abbrev pub OpensSession : Type 0 → World → TeeResult × ℕ × World → Type 0
  OpensSession Fallible w (r, sess, w') =
      ((r ≡ success)
        × ((held w).sessions sess ≡ false)
        × (held w' ≡ record (held w) { sessions = put ℕ_discrete (held w).sessions sess true })
        × (tee w' ≡ tee w))
      ⊎ Fails Fallible r w w'

  -- The client has got the answer of the application.
  abbrev pub Gets :
      {A : Type 0}
      → World
      → Option (TeeResult × A × t.World)
      → Option (TeeResult × A × World)
      → Type 0
  Gets w none out = out ≡ none
  Gets w (some (r, a, tw)) out =
      (w' : World) × (out ≡ some (r, a, w')) × (held w' ≡ held w) × (tee w' ≡ tw)

  -- The command did not reach the application, or its answer came back.
  abbrev pub Invokes :
      Type 0
      → World
      → Params
      → Option (TeeResult × Params × t.World)
      → Option (TeeResult × Params × World)
      → Type 0
  Invokes Fallible w ps answer out =
      ((r : TeeResult) × (w' : World) × (out ≡ some (r, ps, w')) × Fails Fallible r w w')
      ⊎ Gets w answer out

  -- The documented behaviour of a client of `app`. With `Fallible` empty no call of the client fails
  -- but by the answer of the application.
  pub record TeecLaws (app : App t) (Fallible : Type 0) : Type 0 where
    pub init_law : (w : World) → Initializes Fallible w (c.initialize_context w)
    pub allocate_law :
        (ctx size : ℕ) (f : MemFlags) (w : World)
        → (held w).contexts ctx ≡ true
        → Allocates Fallible size w (c.allocate_memory ctx f size w)
    pub open_law :
        (ctx : ℕ) (types : ParamTypes) (w : World)
        → (held w).contexts ctx ≡ true
        → app.open_session types ≡ success
        → OpensSession Fallible w (c.open_session ctx types w)
    pub invoke_law :
        (sess cmd : ℕ) (types : ParamTypes) (ps : Params) (w : World)
        → (held w).sessions sess ≡ true
        → Invokes Fallible w ps
            (app.invoke cmd types ps (tee w))
            (c.invoke_command sess cmd types ps w)
    pub close_law :
        (sess : ℕ) (w : World)
        → (held w).sessions sess ≡ true
        → (held (c.close_session sess w)
            ≡ record (held w) { sessions = put ℕ_discrete (held w).sessions sess false })
          × (tee (c.close_session sess w) ≡ tee w)
    pub release_law :
        (shm : ℕ) (w : World)
        → (held w).memories shm ≡ true
        → (held (c.release_memory shm w)
            ≡ record (held w) { memories = put ℕ_discrete (held w).memories shm false })
          × (tee (c.release_memory shm w) ≡ tee w)
    pub finalize_law :
        (ctx : ℕ) (w : World)
        → (held w).contexts ctx ≡ true
        → (held (c.finalize_context ctx w)
            ≡ record (held w) { contexts = put ℕ_discrete (held w).contexts ctx false })
          × (tee (c.finalize_context ctx w) ≡ tee w)
