-- ===== src/Hello/Laws.antt =====
-- The documented behaviour of the calls that only ta/hello_world/hello_world_ta.c makes, and of its
-- TEE_CloseObject after an opening that failed.
use frameworks_security.Base.{ℕ, some, ◌≡◌, ◌≢◌, ◌⊎◌, put, ℕ_discrete}
use frameworks_security.Tee.{Tee, TeeResult, success, Name, Flags, Opened, opened, Fails}
use frameworks_security.Hello.{Calls}

module _ (t : Tee) (calls : Calls t) where
  open t use {World, view}

  abbrev pub Seeks : ℕ → Opened → ℕ → World → TeeResult × World → Type 0
  Seeks h o p w (r, w') =
      ((r ≡ success)
        × (view w' ≡ record (view w) {
          handles = put ℕ_discrete (view w).handles h (some (opened o.name o.flags p));
        }))
      ⊎ Fails t r w w'

  pub record CallLaws : Type 0 where
    pub seek_law :
        (h p : ℕ) (o : Opened) (w : World)
        → (view w).handles h ≡ some o
        → Seeks h o p w (calls.seek_object h p w)
    pub info_law : (h : ℕ) (w : World) → view (calls.object_info h w).2 ≡ view w
    -- An opening that fails sets the handle to TEE_HANDLE_NULL, and TEE_CloseObject does nothing with
    -- that.
    pub null_law :
        (n : Name) (f : Flags) (w : World)
        → (t.open_object n f w).0 ≢ success
        → view (t.close_object (t.open_object n f w).1 (t.open_object n f w).2)
          ≡ view (t.open_object n f w).2
