-- ===== src/Client/Answer.antt =====
-- What a client program gets from a call: the answer of the application that it is known to give, or
-- the failure of a call of the client.
use mathlib.Core.List.{append-nil}
use frameworks_security.Base.{
  put_self, sym, Bool-cases, ◌+◌, ℕ, ◌≡◌, refl, ◌∙◌, ◌≤◌, ◌⊎◌, inl, inr, Option, none, some, List,
  length, take, drop_all, le→leb, memcpy, arith,
}
use frameworks_security.Ta.Laws.{Stores}
use frameworks_security.Tee.{
  Name, Name-discrete, Tee, TeeResult, success, is_success, ParamTypes, Params,
}
use frameworks_security.Teec.{Teec, App, MemFlags, TeecLaws, Gets, Fails}
use frameworks_security.Client.{Called, after_invoke, call, call_memory, session_types}
use frameworks_security.Client.Laws.{Results, AnswerFilled, call-Results, call_memory-Results}

module _ {t : Tee} (c : Teec t) {A : Type 0} where
  open c use {World, held, tee}

  -- What the client holds afterwards is what it held before.
  abbrev pub Balanced : World → Called World A → Type 0
  Balanced w none = Unit
  Balanced w (some (_, _, w')) = held w' ≡ held w

  -- The answer `y`, or the failure of a call of the client, with nothing changed.
  abbrev pub Ends : Type 0 → A → World → Called t.World A → Called World A → Type 0
  Ends Fallible a w y out =
      ((r : TeeResult) × (w' : World) × (out ≡ some (r, a, w')) × Fails c Fallible r w w')
      ⊎ Gets c w y out

module _ {t : Tee} (c : Teec t) {A : Type 0} (Fallible : Type 0) (a : A) where
  open c use {World, held, tee}

  module _ (Q : Called t.World A → Type 0) (w : World) where
    pub Results-Balanced : (out : Called World A) → Results c Fallible a Q w out → Balanced c w out
    Results-Balanced out (inl (r, w', e, (_, _, (kept, _)))) = rw e kept
    Results-Balanced out (inr (none, _, e)) = rw e tt
    Results-Balanced out (inr (some (r, a', tw), _, (w', e, kept, _))) = rw e kept

    pub Results-Ends :
        (y : Called t.World A) (out : Called World A)
        → ((x : Called t.World A) → Q x → x ≡ y)
        → Results c Fallible a Q w out
        → Ends c Fallible a w y out
    Results-Ends y out one (inl failed) = inl failed
    Results-Ends y out one (inr (x, q, g)) = inr (rw (← one x q) g)

  module _ (app : App t) (laws : TeecLaws c app Fallible)
      (opens : app.open_session session_types ≡ success) (cmd : ℕ) (types : ParamTypes)
      (out : Params → Option A) (w : World) where
    pub call-Ends :
        (ps : Params) (y : Called t.World A)
        → after_invoke out a (app.invoke cmd types ps (tee w)) ≡ y
        → Ends c Fallible a w y (call c a cmd types out ps w)
    call-Ends ps y e =
        Results-Ends _ w y _ (λ x q. q ∙ e)
          (call-Results c Fallible a app laws cmd types out ps w opens)

    pub call_memory-Ends :
        (f : MemFlags) (size : ℕ) (fill : List ℕ → Option Params) (ps : Params)
        (y : Called t.World A)
        → ((buffer : List ℕ) → length buffer ≡ size → fill buffer ≡ some ps)
        → after_invoke out a (app.invoke cmd types ps (tee w)) ≡ y
        → Ends c Fallible a w y (call_memory c a cmd types out f size fill w)
    call_memory-Ends f size fill ps y fills e =
        Results-Ends _ w y _
          (λ (x : Called t.World A)
              (q : AnswerFilled c Fallible a app laws cmd types out size fill (tee w) x).
            (rw (fills q.0 q.1) at q.2) ∙ e)
          (call_memory-Results c Fallible a app laws cmd types out f size fill w opens)

-- After a call that stored an object and succeeded, the object holds the bytes.
module _ {t : Tee} (c : Teec t) (n : Name) (bytes : List ℕ) (w w1 : c.World) where
  open c use {World, held, tee}

  pub Stores-Ends :
      {r : TeeResult} {tw : t.World} {out : Called World Unit}
      → Stores t n bytes (tee w) (r, tw)
      → Ends c ⊥ tt w (some (r, tt, tw)) out
      → out ≡ some (success, tt, w1)
      → (held w1 ≡ held w) × ((t.view (tee w1)).objects n ≡ some bytes)
  Stores-Ends stores (inl (_, _, _, (never, _, _))) done = absurd never
  Stores-Ends {r = r} (inr (bad, _)) (inr (w', e, kept, reached)) done =
      let both : ◌≡◌ {A = Called World Unit} (some (r, tt, w')) (some (success, tt, w1)) =
        sym e ∙ done in
      absurd (bad (cc both))
  Stores-Ends {r = r} (inl (good, e2)) (inr (w', e, kept, reached)) done =
      let both : ◌≡◌ {A = Called World Unit} (some (r, tt, w')) (some (success, tt, w1)) =
        sym e ∙ done in
      let here : w' ≡ w1 = cc both in
      (rw (← here) kept, rw (← here, reached, e2) (put_self Name-discrete _ n _))

-- An answer whose parameters the client does not read.
pub unit_answer :
    {W : Type 0} {x : Option (TeeResult × Params × W)} {r : TeeResult} {ps : Params} {w : W}
    → x ≡ some (r, ps, w)
    → after_invoke (λ _. some tt) tt x ≡ some (r, tt, w)
unit_answer {r = r} e =
    rw e (elim (Bool-cases (is_success r)) [ inl good ↦ rw good refl | inr bad ↦ rw bad refl ])

-- A memory that is filled from its start to its end.
pub memcpy_whole :
    (n : ℕ) (from to : List ℕ)
    → length to ≡ n
    → n ≤ length from
    → memcpy 0 n from to ≡ some (take n from)
unfolding memcpy
memcpy_whole n from to sized fits = rw (
  le→leb n (length from) fits,
  le→leb (0 + n) (length to) (omega (arith, sized)),
  drop_all (0 + n) to (omega (arith, sized)),
  append-nil,
)
