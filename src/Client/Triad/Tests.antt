-- ===== src/Client/Triad/Tests.antt =====
-- The properties of the key and the identity at concrete inputs: a client in memory over a device whose
-- store takes writes of up to 64 bytes, and one that gets no memory for output.
use frameworks_security.Base.{
  ℕ, ◌≡◌, ◌≢◌, refl, inl, inr, true, false, some, List, [], ◌∷◌, put, ℕ_discrete, memcpy, replicate,
}
use frameworks_security.Tee.{TeeResult, success, other, types_match, Name-discrete}
use frameworks_security.Tee.Memory.{device, create, write, close}
use frameworks_security.Ta.{store_object}
use frameworks_security.Teec.{Allocates, Teec, TeecLaws, MemFlags, mem_input, mem_output, mem_inout}
use frameworks_security.Teec.Local.{
  Local, with_answer, new_session, new_memory, new_context, old_session, old_memory, old_context,
}
use frameworks_security.Triad.{open_session, store_key}
use frameworks_security.Triad.Header.{write_hdr}
use frameworks_security.Triad.Dispatch.{invoke_command}
use frameworks_security.Client.{call_memory}
use frameworks_security.Client.Triad.{triad_store_key, store_call}
use frameworks_security.Client.Triad.Gcm.{Buffer, encrypt_message, header_only, triad_gcm_encrypt}
use frameworks_security.Client.Triad.Session.{triad_app}
use frameworks_security.Client.Triad.Leak.{triad_gcm_encrypt_leaks}
use frameworks_security.Client.Triad.Local.{
  no_mac, no_ae, little_endian, begin, service, service-laws, world_of,
}

abbrev key_world : Local device
key_world = world_of (triad_store_key service (replicate 16 7) 16 begin)

key-stored : triad_store_key service (replicate 16 7) 16 begin ≡ some (success, tt, key_world)
unfolding triad_store_key call_memory memcpy open_session types_match with_answer invoke_command
    store_object create write close put ℕ_discrete new_session new_memory new_context old_session
    old_memory old_context Name-discrete store_call store_key
key-stored = refl

-- A client that gets no memory for output.
abbrev allocate_input : ℕ → MemFlags → ℕ → Local device → TeeResult × ℕ × List ℕ × Local device
allocate_input ctx mem_output size w = (other 1, 0, [], w)
allocate_input ctx f size w = service.allocate_memory ctx f size w

abbrev tight : Teec device
tight = record service { allocate_memory = allocate_input }

allocate_input-Allocates :
    (ctx size : ℕ) (f : MemFlags) (w : Local device)
    → w.held.contexts ctx ≡ true
    → Allocates tight Unit size w (allocate_input ctx f size w)
allocate_input-Allocates ctx size mem_output w live = inr (tt, (λ e. cc), (refl, refl))
allocate_input-Allocates ctx size mem_input w live =
    elim (service-laws.allocate_law ctx size mem_input w live) [
      | inl got ↦ inl got
      | inr (never, _, _) ↦ absurd never
    ]
allocate_input-Allocates ctx size mem_inout w live =
    elim (service-laws.allocate_law ctx size mem_inout w live) [
      | inl got ↦ inl got
      | inr (never, _, _) ↦ absurd never
    ]

tight-laws : TeecLaws tight (triad_app device no_mac no_ae little_endian 0) Unit
tight-laws = record {
  init_law =
      λ w. elim (service-laws.init_law w) [ inl got ↦ inl got | inr (never, _, _) ↦ absurd never ];
  allocate_law = λ ctx size f w live. allocate_input-Allocates ctx size f w live;
  open_law = λ ctx types w live opens. elim (service-laws.open_law ctx types w live opens) [
    | inl got ↦ inl got
    | inr (never, _, _) ↦ absurd never
  ];
  invoke_law = λ sess cmd types ps w live. elim (service-laws.invoke_law sess cmd types ps w live) [
    | inl (_, _, _, (never, _, _)) ↦ absurd never
    | inr got ↦ inr got
  ];
  close_law = service-laws.close_law;
  release_law = service-laws.release_law;
  finalize_law = service-laws.finalize_law;
}

abbrev buffer_of : List ℕ → ℕ → Buffer
buffer_of bytes len = record { bytes = bytes; len = len }

-- One byte of input, no further data, and a tag of one byte.
triad_gcm_encrypt_leaks_example :
    (r : TeeResult) × (w' : Local device) × (triad_gcm_encrypt tight little_endian 512 32
        (buffer_of [] 0)
        (buffer_of [] 0)
        (buffer_of (5 ∷ []) 1)
        (buffer_of (0 ∷ []) 1)
        (0 ∷ [])
        begin
      ≡ some (r, (0 ∷ [], 0 ∷ []), w'))
    × (r ≢ success)
    × (begin.held.memories 1 ≡ false)
    × (w'.held.memories 1 ≡ true)
unfolding encrypt_message header_only memcpy write_hdr new_context
triad_gcm_encrypt_leaks_example =
    triad_gcm_encrypt_leaks tight tight-laws little_endian 512 32 (buffer_of [] 0) (buffer_of [] 0)
      (buffer_of (5 ∷ []) 1) (buffer_of (0 ∷ []) 1) (0 ∷ []) (0 ∷ 1 ∷ 0 ∷ 0 ∷ 1 ∷ 0 ∷ 5 ∷ [])
      {shm = 1} refl refl (λ e. cc) refl refl
