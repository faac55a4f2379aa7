-- ===== src/Ta/Reading.antt =====
-- What with_object does: the body ran on the first bytes of the object, or nothing happened.
use frameworks_security.Base.{
  ℕ, ◌+◌, ◌≡◌, refl, ◌≢◌, ◌⊎◌, inl, inr, Option, none, some, List, take, put, put_self, put-put,
  ℕ_discrete, Option-cases, length, ◌∙◌,
}
use frameworks_security.Tee.{
  Tee, TeeResult, success, is_success-false, Name, flags_read, Opened, opened, StorageLaws,
}
use frameworks_security.Ta.{close_after, after_read, with_object}
use frameworks_security.Ta.Laws.{Reliable, close-opened}

module _ (t : Tee) (laws : StorageLaws t) where
  open t use {World, view}

  module _ {A : Type 0} (n : Name) (size : ℕ) (a : A) (w : World) where
    -- The body ran on the first `size` bytes of the object, between the opening and the closing.
    abbrev pub Ran :
        (List ℕ → World → Option (TeeResult × A × World)) → Option (TeeResult × A × World) → Type 0
    Ran body result =
        (stored : List ℕ) × (obj : ℕ) × (w2 : World) × ((view w).objects n ≡ some stored)
        × ((view w).handles obj ≡ none)
        × (view w2 ≡ record (view w) {
          handles =
              put ℕ_discrete (view w).handles obj
                (some (opened n flags_read (0 + length (take size stored))));
        })
        × (result ≡ close_after t obj (body (take size stored) w2))

    -- The body did not run, since a call failed; nothing has changed.
    abbrev pub Failed : Option (TeeResult × A × World) → Type 0
    Failed result =
        (r : TeeResult) × (w' : World) × (r ≢ success)
        × (view w' ≡ view w)
        × (result ≡ some (r, a, w'))

    after_read_cases :
        (body : List ℕ → World → Option (TeeResult × A × World)) (stored : List ℕ) (obj : ℕ)
        (w1 : World)
        → (view w).objects n ≡ some stored
        → (view w).handles obj ≡ none
        → view w1 ≡ record (view w) {
          handles = put ℕ_discrete (view w).handles obj (some (opened n flags_read 0));
        }
        → let result = close_after t obj (after_read t body a (t.read_object obj size w1)) in
          Failed result ⊎ Ran body result
    unfolding after_read
    after_read_cases body stored obj w1 there fresh e =
        elim (laws.read_law obj size o stored w1 handle refl (rw e there)) [
          | inr (bad, same) ↦ inl (
            r.0,
            t.close_object obj r.2,
            bad,
            close-opened t laws (view w) obj o r.2 fresh (same ∙ e),
            rw (is_success-false r.0 bad),
          )
          | inl (good, bytes, e2) ↦
              inr (stored, obj, r.2, there, fresh, rw (e2, e, put-put, bytes), rw (good, bytes))
        ]
      where
        o : Opened
        o = opened n flags_read 0

        handle : (view w1).handles obj ≡ some o
        handle = rw e (put_self ℕ_discrete _ obj _)

        r : TeeResult × List ℕ × World
        r = t.read_object obj size w1

    pub with_object_cases :
        (body : List ℕ → World → Option (TeeResult × A × World))
        → Failed (with_object t n size body a w) ⊎ Ran body (with_object t n size body a w)
    unfolding with_object
    with_object_cases body = elim (laws.open_law n flags_read w) [
      | inr (bad, same) ↦ inl (r.0, r.2, bad, same, rw (is_success-false r.0 bad))
      | inl (good, there, fresh, e) ↦ elim (Option-cases ((view w).objects n)) [
        | inl missing ↦ absurd (there missing)
        | inr (stored, found) ↦ rw good (after_read_cases body stored r.1 r.2 found fresh e)
      ]
    ]
      where
        r : TeeResult × ℕ × World
        r = t.open_object n flags_read w

    pub with_object_reliable :
        Reliable t
        → (body : List ℕ → World → Option (TeeResult × A × World)) → (view w).objects n ≢ none
        → Ran body (with_object t n size body a w)
    unfolding with_object after_read
    with_object_reliable rel body there = elim (laws.open_law n flags_read w) [
      | inr (bad, same) ↦ absurd (bad (rel.open_ok n flags_read w there))
      | inl (good, _, fresh, e) ↦ elim (Option-cases ((view w).objects n)) [
        | inl missing ↦ absurd (there missing)
        | inr (stored, found) ↦
            elim (laws.read_law r.1 size o stored r.2 (handle fresh e) refl (rw e found)) [
              | inr (bad, _) ↦
                  absurd (bad (rel.read_ok r.1 size o r.2 (handle fresh e) refl (rw e there)))
              | inl (ok, bytes, e2) ↦ (
                stored,
                r.1,
                (t.read_object r.1 size r.2).2,
                found,
                fresh,
                rw (e2, e, put-put, bytes),
                rw (good, ok, bytes),
              )
            ]
      ]
    ]
      where
        o : Opened
        o = opened n flags_read 0

        r : TeeResult × ℕ × World
        r = t.open_object n flags_read w

        handle :
            (view w).handles r.1 ≡ none
            → view r.2 ≡ record (view w) { handles = put ℕ_discrete (view w).handles r.1 (some o) }
            → (view r.2).handles r.1 ≡ some o
        handle fresh e = rw e (put_self ℕ_discrete _ r.1 _)
