-- ===== src/Teec/Local.antt =====
-- A client in memory that meets the documented laws and of which no call fails. Contexts, memories
-- and sessions are given out by a counter.
use frameworks_security.Base.{
  length-replicate, ℕ, suc, ◌≡◌, refl, ◌∙◌, inl, inr, Bool, true, false, Option, none, some,
  replicate, put, put_ne, ◌≤◌, ℕ_discrete, arith,
}
use frameworks_security.Tee.{Tee, TeeResult, success, Params}
use frameworks_security.Ta.{Outcome}
use frameworks_security.Teec.{Teec, App, Held, TeecLaws, Gets}

abbrev pub Free : (ℕ → Bool) → ℕ → Type 0
Free f n = (k : ℕ) → n ≤ k → f k ≡ false

-- From `next` on nothing is in use.
pub record Local (t : Tee) : Type 0 where
  pub tee : t.World
  pub held : Held
  pub next : ℕ
  pub contexts_free : Free held.contexts next
  pub memories_free : Free held.memories next
  pub sessions_free : Free held.sessions next

pub taken : (f : ℕ → Bool) (n : ℕ) → Free f n → Free (put ℕ_discrete f n true) (suc n)
taken f n free k le = put_ne ℕ_discrete f n true k (omega arith) ∙ free k (omega arith)

pub later : (f : ℕ → Bool) (n : ℕ) → Free f n → Free f (suc n)
later f n free k le = free k (omega arith)

pub given_back : (f : ℕ → Bool) (n h : ℕ) → Free f n → Free (put ℕ_discrete f h false) n
unfolding put
given_back f n h free k le = ground (arith, free k le)

module _ (t : Tee) where
  abbrev pub start : t.World → Local t
  start w = record {
    tee = w;
    held = record { contexts = λ _. false; memories = λ _. false; sessions = λ _. false };
    next = 0;
    contexts_free = λ k le. refl;
    memories_free = λ k le. refl;
    sessions_free = λ k le. refl;
  }

  unfoldable pub new_context : Local t → Local t
  new_context w = record w {
    held = record (w.held) { contexts = put ℕ_discrete w.held.contexts w.next true };
    next = suc w.next;
    contexts_free = taken w.held.contexts w.next w.contexts_free;
    memories_free = later w.held.memories w.next w.memories_free;
    sessions_free = later w.held.sessions w.next w.sessions_free;
  }

  unfoldable pub new_memory : Local t → Local t
  new_memory w = record w {
    held = record (w.held) { memories = put ℕ_discrete w.held.memories w.next true };
    next = suc w.next;
    contexts_free = later w.held.contexts w.next w.contexts_free;
    memories_free = taken w.held.memories w.next w.memories_free;
    sessions_free = later w.held.sessions w.next w.sessions_free;
  }

  unfoldable pub new_session : Local t → Local t
  new_session w = record w {
    held = record (w.held) { sessions = put ℕ_discrete w.held.sessions w.next true };
    next = suc w.next;
    contexts_free = later w.held.contexts w.next w.contexts_free;
    memories_free = later w.held.memories w.next w.memories_free;
    sessions_free = taken w.held.sessions w.next w.sessions_free;
  }

  unfoldable pub old_context : ℕ → Local t → Local t
  old_context h w = record w {
    held = record (w.held) { contexts = put ℕ_discrete w.held.contexts h false };
    contexts_free = given_back w.held.contexts w.next h w.contexts_free;
  }

  unfoldable pub old_memory : ℕ → Local t → Local t
  old_memory h w = record w {
    held = record (w.held) { memories = put ℕ_discrete w.held.memories h false };
    memories_free = given_back w.held.memories w.next h w.memories_free;
  }

  unfoldable pub old_session : ℕ → Local t → Local t
  old_session h w = record w {
    held = record (w.held) { sessions = put ℕ_discrete w.held.sessions h false };
    sessions_free = given_back w.held.sessions w.next h w.sessions_free;
  }

  unfoldable pub with_answer : Local t → Outcome t → Option (TeeResult × Params × Local t)
  with_answer w none = none
  with_answer w (some (r, ps, tw)) = some (r, ps, record w { tee = tw })

  abbrev pub client : App t → Teec t
  client app = record {
    World = Local t;
    held = λ w. w.held;
    tee = λ w. w.tee;
    initialize_context = λ w. (success, w.next, new_context w);
    allocate_memory = λ ctx f size w. (success, w.next, replicate size 0, new_memory w);
    open_session = λ ctx types w. (app.open_session types, w.next, new_session w);
    invoke_command = λ sess cmd types ps w. with_answer w (app.invoke cmd types ps w.tee);
    close_session = old_session;
    release_memory = old_memory;
    finalize_context = old_context;
  }

  with_answer-Gets :
      (app : App t) (w : Local t) (x : Outcome t) → Gets (client app) w x (with_answer w x)
  unfolding with_answer
  with_answer-Gets app w none = refl
  with_answer-Gets app w (some (r, ps, tw)) = (record w { tee = tw }, refl, refl, refl)

  pub client-TeecLaws : (app : App t) → TeecLaws (client app) app ⊥
  unfolding new_context new_memory new_session old_context old_memory old_session
  client-TeecLaws app = record {
    init_law = λ w. inl (refl, w.contexts_free w.next (omega arith), refl, refl);
    allocate_law = λ ctx size f w live.
        inl (refl, w.memories_free w.next (omega arith), refl, refl, length-replicate size 0);
    open_law =
        λ ctx types w live opens. inl (opens, w.sessions_free w.next (omega arith), refl, refl);
    invoke_law =
        λ sess cmd types ps w live. inr (with_answer-Gets app w (app.invoke cmd types ps w.tee));
    close_law = λ sess w live. (refl, refl);
    release_law = λ shm w live. (refl, refl);
    finalize_law = λ ctx w live. (refl, refl);
  }
