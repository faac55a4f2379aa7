-- ===== src/Client/Laws.antt =====
-- What a call of a client does, by the documented laws of the TEE Client API.
use frameworks_security.Base.{
  ℕ, ◌≡◌, refl, ◌∙◌, sym, subst, subst, ◌⊎◌, inl, inr, true, false, Option, none, some, List,
  length, put_self, put-put, put_same, ℕ_discrete, Bool-cases, Option-cases,
}
use frameworks_security.Tee.{
  Tee, TeeResult, success, is_success, is_success-false, ParamTypes, Params,
}
use frameworks_security.Teec.{Teec, App, MemFlags, TeecLaws, Gets, Fails}
use frameworks_security.Client.{
  Called, and_then, after_invoke, in_context, in_memory, in_session, in_one_session, call, filled,
  call_memory, session_types,
}

module _ {t : Tee} (c : Teec t) {A : Type 0} (Fallible : Type 0) (a : A) where
  open c use {World, held, tee}

  -- A call of the client failed and nothing has changed; or the client has an answer for which `Q`
  -- holds. Whatever the client had taken it has given back.
  abbrev pub Results : (Called t.World A → Type 0) → World → Called World A → Type 0
  Results Q w out =
      ((r : TeeResult) × (w' : World) × (out ≡ some (r, a, w')) × Fails c Fallible r w w')
      ⊎ ((x : Called t.World A) × Q x × Gets c w x out)

  -- What is undone afterwards is as if it had not been done.
  pub undone :
      (Q : Called t.World A → Type 0) (undo : World → World) (w w1 : World) (out : Called World A)
      → tee w1 ≡ tee w
      → ((w' : World) → held w' ≡ held w1 → (held (undo w') ≡ held w) × (tee (undo w') ≡ tee w'))
      → Results Q w1 out
      → Results Q w (and_then undo out)
  undone Q undo w w1 out e back (inl (r, w', e1, (can, bad, (kept, same)))) =
      let (held', tee') = back w' kept in
      inl (r, undo w', rw e1 refl, (can, bad, (held', tee' ∙ same ∙ e)))
  undone Q undo w w1 out e back (inr (none, q, g)) = inr (none, q, rw g refl)
  undone Q undo w w1 out e back (inr (some (r, a', tw), q, (w', e1, kept, reached))) =
      let (held', tee') = back w' kept in
      inr (some (r, a', tw), q, (undo w', rw e1 refl, held', tee' ∙ reached))

module _ {t : Tee} (c : Teec t) {A : Type 0} (Fallible : Type 0) (a : A) (app : App t)
    (laws : TeecLaws c app Fallible) where
  open c use {World, held, tee}

  module _ (Q : Called t.World A → Type 0) where
    in_session-Results :
        (body : ℕ → World → Called World A) (ctx : ℕ) (w : World)
        → (held w).contexts ctx ≡ true
        → app.open_session session_types ≡ success
        → ((sess : ℕ) (w1 : World)
            → (held w1).sessions sess ≡ true
            → tee w1 ≡ tee w
            → Results c Fallible a Q w1 (body sess w1))
        → Results c Fallible a Q w (in_session c a body (c.open_session ctx session_types w))
    unfolding in_session
    in_session-Results body ctx w live opens ran =
        elim (laws.open_law ctx session_types w live opens) [
          | inr (can, bad, same) ↦
              rw (in_session, is_success-false r.0 bad) (inl (r.0, r.2, refl, (can, bad, same)))
          | inl (good, fresh, e, te) ↦
              rw (in_session, good)
                (undone c Fallible a Q (c.close_session r.1) w r.2 (body r.1 r.2) te
                  (λ w' kept.
                    let (h, k) =
                      laws.close_law r.1 w' (rw (kept, e) (put_self ℕ_discrete _ r.1 _)) in
                    (
                      h
                          ∙ rw (
                            kept,
                            e,
                            put-put,
                            put_same ℕ_discrete (held w).sessions r.1 false fresh,
                          ),
                      k,
                    ))
                  (ran r.1 r.2 (rw e (put_self ℕ_discrete _ r.1 _)) te))
        ]
      where
        r : TeeResult × ℕ × World
        r = c.open_session ctx session_types w

    in_memory-Results :
        (body : List ℕ → World → Called World A) (ctx size : ℕ) (f : MemFlags) (w : World)
        → (held w).contexts ctx ≡ true
        → ((buffer : List ℕ) (w1 : World)
            → (held w1).contexts ctx ≡ true
            → tee w1 ≡ tee w
            → length buffer ≡ size
            → Results c Fallible a Q w1 (body buffer w1))
        → Results c Fallible a Q w (in_memory c a body (c.allocate_memory ctx f size w))
    unfolding in_memory
    in_memory-Results body ctx size f w live ran = elim (laws.allocate_law ctx size f w live) [
      | inr (can, bad, same) ↦
          rw (in_memory, is_success-false r.0 bad) (inl (r.0, r.3, refl, (can, bad, same)))
      | inl (good, fresh, e, te, sized) ↦
          rw (in_memory, good)
            (undone c Fallible a Q (c.release_memory r.1) w r.3 (body r.2 r.3) te
              (λ w' kept.
                let (h, k) = laws.release_law r.1 w' (rw (kept, e) (put_self ℕ_discrete _ r.1 _)) in
                (
                  h ∙ rw (kept, e, put-put, put_same ℕ_discrete (held w).memories r.1 false fresh),
                  k,
                ))
              (ran r.2 r.3 (rw e live) te sized))
    ]
      where
        r : TeeResult × ℕ × List ℕ × World
        r = c.allocate_memory ctx f size w

    in_context-Results :
        (body : ℕ → World → Called World A) (w : World)
        → ((ctx : ℕ) (w1 : World)
            → (held w1).contexts ctx ≡ true
            → tee w1 ≡ tee w
            → Results c Fallible a Q w1 (body ctx w1))
        → Results c Fallible a Q w (in_context c a body (c.initialize_context w))
    unfolding in_context
    in_context-Results body w ran = elim (laws.init_law w) [
      | inr (can, bad, same) ↦
          rw (in_context, is_success-false r.0 bad) (inl (r.0, r.2, refl, (can, bad, same)))
      | inl (good, fresh, e, te) ↦
          rw (in_context, good)
            (undone c Fallible a Q (c.finalize_context r.1) w r.2 (body r.1 r.2) te
              (λ w' kept.
                let (h, k) =
                  laws.finalize_law r.1 w' (rw (kept, e) (put_self ℕ_discrete _ r.1 _)) in
                (
                  h ∙ rw (kept, e, put-put, put_same ℕ_discrete (held w).contexts r.1 false fresh),
                  k,
                ))
              (ran r.1 r.2 (rw e (put_self ℕ_discrete _ r.1 _)) te))
    ]
      where
        r : TeeResult × ℕ × World
        r = c.initialize_context w

  module _ (cmd : ℕ) (types : ParamTypes) (out : Params → Option A) where
    -- What the client makes of the application's answer.
    abbrev pub answer : Params → t.World → Called t.World A
    answer ps tw = after_invoke out a (app.invoke cmd types ps tw)

    -- The answer is that to the parameters.
    abbrev pub AnswerTo : Params → t.World → Called t.World A → Type 0
    AnswerTo ps tw x = x ≡ answer ps tw

    invoked :
        (x : Option (TeeResult × Params × t.World)) (w : World)
        (got : Option (TeeResult × Params × World))
        → Gets c w x got
        → Gets c w (after_invoke out a x) (after_invoke out a got)
    invoked none w got e = rw e refl
    invoked (some (r, ps', tw)) w got (w', e, kept, reached) = elim (Bool-cases (is_success r)) [
      | inr bad ↦ rw (e, bad) (w', refl, kept, reached)
      | inl good ↦ elim (Option-cases (out ps')) [
        | inl e1 ↦ rw (e, good, e1) refl
        | inr (x, e1) ↦ rw (e, good, e1) (w', refl, kept, reached)
      ]
    ]

    in_one_session-Results :
        (ctx : ℕ) (ps : Params) (w : World)
        → (held w).contexts ctx ≡ true
        → app.open_session session_types ≡ success
        → Results c Fallible a (AnswerTo ps (tee w)) w (in_one_session c a cmd types out ctx ps w)
    unfolding in_one_session
    in_one_session-Results ctx ps w live opens =
        in_session-Results (AnswerTo ps (tee w))
          (λ sess w1. after_invoke out a (c.invoke_command sess cmd types ps w1)) ctx w live opens
          ran
      where
        ran :
            (sess : ℕ) (w1 : World)
            → (held w1).sessions sess ≡ true
            → tee w1 ≡ tee w
            → Results c Fallible a
                (AnswerTo ps (tee w))
                w1
                (after_invoke out a (c.invoke_command sess cmd types ps w1))
        ran sess w1 live1 te = elim (laws.invoke_law sess cmd types ps w1 live1) [
          | inl (r, w', e, (can, bad, same)) ↦
              inl (r, w', rw (e, is_success-false r bad) refl, (can, bad, same))
          | inr g ↦ inr (
            answer ps (tee w),
            refl,
            invoked (app.invoke cmd types ps (tee w)) w1 (c.invoke_command sess cmd types ps w1)
                (rw (sym te) g),
          )
        ]

    -- A command without a shared memory: some call of the client failed and the TEE is as before, or
    -- the application's answer is the result; all that the client took it has given back.
    pub call-Results :
        (ps : Params) (w : World)
        → app.open_session session_types ≡ success
        → Results c Fallible a (AnswerTo ps (tee w)) w (call c a cmd types out ps w)
    unfolding call
    call-Results ps w opens =
        in_context-Results (AnswerTo ps (tee w))
          (λ ctx w1. in_one_session c a cmd types out ctx ps w1) w
          (λ ctx w1 live te.
            subst
              (λ x.
                Results c Fallible a (AnswerTo ps x) w1
                  (in_one_session c a cmd types out ctx ps w1))
              te (in_one_session-Results ctx ps w1 live opens))

    -- The answer to the parameters that were made from a memory, or an access outside it.
    abbrev pub AnswerIf : t.World → Option Params → Called t.World A → Type 0
    AnswerIf tw none x = x ≡ none
    AnswerIf tw (some ps) x = AnswerTo ps tw x

    abbrev pub AnswerFilled : ℕ → (List ℕ → Option Params) → t.World → Called t.World A → Type 0
    AnswerFilled size fill tw x =
        (buffer : List ℕ) × (length buffer ≡ size) × AnswerIf tw (fill buffer) x

    -- The same of a command with a shared memory, which holds the parameters that `fill` makes.
    pub call_memory-Results :
        (f : MemFlags) (size : ℕ) (fill : List ℕ → Option Params) (w : World)
        → app.open_session session_types ≡ success
        → Results c Fallible a
            (AnswerFilled size fill (tee w))
            w
            (call_memory c a cmd types out f size fill w)
    unfolding call_memory
    call_memory-Results f size fill w opens =
        in_context-Results Q
          (λ ctx w1.
            in_memory c a (λ buffer w2. filled c a cmd types out ctx w2 (fill buffer))
              (c.allocate_memory ctx f size w1))
          w
          (λ ctx w1 live te.
            in_memory-Results Q (λ buffer w2. filled c a cmd types out ctx w2 (fill buffer)) ctx
              size f w1 live
              (λ buffer w2 live2 te2 sized. ran ctx buffer w2 live2 (te2 ∙ te) sized))
      where
        Q : Called t.World A → Type 0
        Q = AnswerFilled size fill (tee w)

        go :
            (ctx : ℕ) (buffer : List ℕ) (w2 : World) (o : Option Params)
            → fill buffer ≡ o
            → (held w2).contexts ctx ≡ true
            → tee w2 ≡ tee w
            → length buffer ≡ size
            → Results c Fallible a Q w2 (filled c a cmd types out ctx w2 o)
        go ctx buffer w2 none e live te sized = inr (none, (buffer, sized, rw e refl), refl)
        go ctx buffer w2 (some ps) e live te sized =
            elim (in_one_session-Results ctx ps w2 live opens) [
              | inl failed ↦ inl failed
              | inr (x, q, g) ↦ inr (x, (buffer, sized, rw (e, sym te) q), g)
            ]

        ran :
            (ctx : ℕ) (buffer : List ℕ) (w2 : World)
            → (held w2).contexts ctx ≡ true
            → tee w2 ≡ tee w
            → length buffer ≡ size
            → Results c Fallible a Q w2 (filled c a cmd types out ctx w2 (fill buffer))
        ran ctx buffer w2 = go ctx buffer w2 (fill buffer) refl
