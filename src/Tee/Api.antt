-- ===== src/Tee/Api.antt =====
-- The interface of the TEE Internal Core API as a parameter, and the behaviour that its
-- specification documents. Handles are opaque, so they are numbers.
use frameworks_security.Base.{
  ℕ, ◌+◌, ◌≤◌, ◌≡◌, ◌≢◌, ◌⊎◌, true, none, some, List, ◌++◌, take, drop, length, put, ℕ_discrete,
}
use frameworks_security.Tee.Types.{TeeResult, success, Name, Name-discrete, Flags, Opened, Secure}

pub record Tee : Type 1 where
  pub World : Type 0
  pub view : World → Secure
  -- TEE_CreatePersistentObject, with no attributes and no initial data
  pub create_object : Name → Flags → World → TeeResult × ℕ × World
  -- TEE_OpenPersistentObject
  pub open_object : Name → Flags → World → TeeResult × ℕ × World
  -- TEE_ReadObjectData; the bytes read, as many as it reports
  pub read_object : ℕ → ℕ → World → TeeResult × List ℕ × World
  -- TEE_WriteObjectData
  pub write_object : ℕ → List ℕ → World → TeeResult × World
  -- TEE_CloseObject
  pub close_object : ℕ → World → World
  -- TEE_CloseAndDeletePersistentObject1
  pub delete_object : ℕ → World → TeeResult × World
  -- TEE_AllocateOperation for TEE_ALG_SHA256
  pub allocate_digest : World → TeeResult × ℕ × World
  -- TEE_DigestUpdate
  pub digest_update : ℕ → List ℕ → World → World
  -- TEE_DigestDoFinal, with no further input; the bytes written, as many as it reports
  pub digest_do_final : ℕ → ℕ → World → TeeResult × List ℕ × World
  -- TEE_FreeOperation
  pub free_operation : ℕ → World → World

abbrev pub opened : Name → Flags → ℕ → Opened
opened n f p = record { name = n; flags = f; position = p }

-- A write of `bytes` at position `p` of `data`.
abbrev pub splice : List ℕ → ℕ → List ℕ → List ℕ
splice old p bytes = take p old ++ (bytes ++ drop (p + length bytes) old)

module _ (t : Tee) where
  open t use {World, view}

  -- A call that may fail: what it does when it succeeds, and that it does nothing when it fails.
  abbrev pub Fails : TeeResult → World → World → Type 0
  Fails r w w' = (r ≢ success) × (view w' ≡ view w)

  abbrev pub Creates : Name → Flags → World → TeeResult × ℕ × World → Type 0
  Creates n f w (r, h, w') =
      ((r ≡ success)
        × ((view w).handles h ≡ none)
        × (view w' ≡ record (view w) {
          objects = put Name-discrete (view w).objects n (some (List.[]));
          handles = put ℕ_discrete (view w).handles h (some (opened n f 0));
        }))
      ⊎ Fails r w w'

  abbrev pub Opens : Name → Flags → World → TeeResult × ℕ × World → Type 0
  Opens n f w (r, h, w') =
      ((r ≡ success)
        × ((view w).objects n ≢ none)
        × ((view w).handles h ≡ none)
        × (view w' ≡ record (view w) {
          handles = put ℕ_discrete (view w).handles h (some (opened n f 0));
        }))
      ⊎ Fails r w w'

  abbrev pub Reads : ℕ → Opened → List ℕ → ℕ → World → TeeResult × List ℕ × World → Type 0
  Reads h o stored n w (r, bytes, w') =
      ((r ≡ success)
        × (bytes ≡ take n (drop o.position stored))
        × (view w' ≡ record (view w) {
          handles =
              put ℕ_discrete (view w).handles h
                (some (opened o.name o.flags (o.position + length bytes)));
        }))
      ⊎ Fails r w w'

  abbrev pub Writes : ℕ → Opened → List ℕ → List ℕ → World → TeeResult × World → Type 0
  Writes h o stored bytes w (r, w') =
      ((r ≡ success)
        × (view w' ≡ record (view w) {
          objects =
              put Name-discrete (view w).objects o.name (some (splice stored o.position bytes));
          handles =
              put ℕ_discrete (view w).handles h
                (some (opened o.name o.flags (o.position + length bytes)));
        }))
      ⊎ Fails r w w'

  abbrev pub Deletes : ℕ → Opened → World → TeeResult × World → Type 0
  Deletes h o w (r, w') =
      ((r ≡ success)
        × (view w' ≡ record (view w) {
          objects = put Name-discrete (view w).objects o.name none;
          handles = put ℕ_discrete (view w).handles h none;
        }))
      ⊎ ((r ≢ success) × ((view w').objects ≡ (view w).objects))

  -- The documented behaviour of the storage calls.
  pub record StorageLaws : Type 0 where
    pub create_law :
        (n : Name) (f : Flags) (w : World)
        → f.overwrite ≡ true
        → Creates n f w (t.create_object n f w)
    pub open_law : (n : Name) (f : Flags) (w : World) → Opens n f w (t.open_object n f w)
    pub read_law :
        (h n : ℕ) (o : Opened) (stored : List ℕ) (w : World)
        → (view w).handles h ≡ some o
        → o.flags.access_read ≡ true
        → (view w).objects o.name ≡ some stored
        → Reads h o stored n w (t.read_object h n w)
    pub write_law :
        (h : ℕ) (bytes : List ℕ) (o : Opened) (stored : List ℕ) (w : World)
        → (view w).handles h ≡ some o
        → o.flags.access_write ≡ true
        → (view w).objects o.name ≡ some stored
        → Writes h o stored bytes w (t.write_object h bytes w)
    pub close_law :
        (h : ℕ) (o : Opened) (w : World)
        → (view w).handles h ≡ some o
        → view (t.close_object h w)
          ≡ record (view w) { handles = put ℕ_discrete (view w).handles h none }
    pub delete_law :
        (h : ℕ) (o : Opened) (w : World)
        → (view w).handles h ≡ some o
        → o.flags.access_write_meta ≡ true
        → Deletes h o w (t.delete_object h w)

  abbrev pub Allocates : World → TeeResult × ℕ × World → Type 0
  Allocates w (r, op, w') =
      ((r ≡ success)
        × (op ≢ 0)
        × ((view w).digests op ≡ none)
        × (view w'
            ≡ record (view w) { digests = put ℕ_discrete (view w).digests op (some (List.[])) }))
      ⊎ ((op ≡ 0) × Fails r w w')

  abbrev pub Finishes :
      (List ℕ → List ℕ) → ℕ → ℕ → List ℕ → World → TeeResult × List ℕ × World → Type 0
  Finishes sha256 op room taken w (r, bytes, w') =
      ((r ≡ success)
        × (bytes ≡ sha256 taken)
        × (view w'
            ≡ record (view w) { digests = put ℕ_discrete (view w).digests op (some (List.[])) }))
      ⊎ ((length bytes ≤ room) × Fails r w w')

  -- The documented behaviour of the digest calls, for the function that they compute.
  pub record DigestLaws (sha256 : List ℕ → List ℕ) : Type 0 where
    pub sha256_length : (bytes : List ℕ) → length (sha256 bytes) ≡ 32
    pub allocate_law : (w : World) → Allocates w (t.allocate_digest w)
    pub update_law :
        (op : ℕ) (bytes taken : List ℕ) (w : World)
        → (view w).digests op ≡ some taken
        → view (t.digest_update op bytes w)
          ≡ record (view w) { digests = put ℕ_discrete (view w).digests op (some (taken ++ bytes)) }
    pub final_law :
        (op room : ℕ) (taken : List ℕ) (w : World)
        → (view w).digests op ≡ some taken
        → Finishes sha256 op room taken w (t.digest_do_final op room w)
    pub free_law :
        (op : ℕ) (taken : List ℕ) (w : World)
        → (view w).digests op ≡ some taken
        → view (t.free_operation op w)
          ≡ record (view w) { digests = put ℕ_discrete (view w).digests op none }
