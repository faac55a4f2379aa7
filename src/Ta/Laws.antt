-- ===== src/Ta/Laws.antt =====
-- What the shared call sequences do, by the documented laws of the storage calls.
use mathlib.Core.List.{append-nil}
use frameworks_security.Base.{
  ap, ℕ, ◌+◌, true, ◌≡◌, refl, ◌≢◌, ◌⊎◌, inl, inr, none, some, List, [], put, put_self, put-put,
  put_same, ℕ_discrete, arith, drop-nil, length, ◌∙◌,
}
use frameworks_security.Tee.{
  Tee, TeeResult, success, is_success-false, Name, Name-discrete, Flags, flags_create, flags_read,
  flags_write_meta, Secure, Opened, opened, StorageLaws,
}
use frameworks_security.Ta.{Outcome, delete_opened, write_and_close, store_object, touch_object}

module _ (t : Tee) where
  open t use {World, view}

  -- A store succeeds with the object holding the bytes; or it fails and changes nothing, or leaves
  -- the object empty. No handle stays open.
  abbrev pub Stores : Name → List ℕ → World → TeeResult × World → Type 0
  Stores n bytes w (r, w') =
      ((r ≡ success)
        × (view w'
            ≡ record (view w) { objects = put Name-discrete (view w).objects n (some bytes) }))
      ⊎ ((r ≢ success)
          × ((view w' ≡ view w)
              ⊎ (view w'
                  ≡ record (view w) { objects = put Name-discrete (view w).objects n (some []) })))

  -- Every object but one is as before, if the command returned.
  abbrev pub SparesOthers : Name → World → Outcome t → Type 0
  SparesOthers n w none = Unit
  SparesOthers n w (some (_, _, w')) = (m : Name) → m ≢ n → (view w').objects m ≡ (view w).objects m

  -- A device on which opening an object that exists, and reading it, does not fail.
  pub record Reliable : Type 0 where
    pub open_ok :
        (n : Name) (f : Flags) (w : World)
        → (view w).objects n ≢ none
        → (t.open_object n f w).0 ≡ success
    pub read_ok :
        (h size : ℕ) (o : Opened) (w : World)
        → (view w).handles h ≡ some o
        → o.flags.access_read ≡ true
        → (view w).objects o.name ≢ none
        → (t.read_object h size w).0 ≡ success

module _ (t : Tee) (laws : StorageLaws t) where
  open t use {World, view}

  -- To close the one handle that was opened since is to come back to the state before.
  pub close-opened :
      (v : Secure) (h : ℕ) (o : Opened) (w : World)
      → v.handles h ≡ none
      → view w ≡ record v { handles = put ℕ_discrete v.handles h (some o) }
      → view (t.close_object h w) ≡ v
  close-opened v h o w fresh e =
      laws.close_law h o w (rw e (put_self ℕ_discrete _ h _))
      ∙ rw (e, put-put, put_same ℕ_discrete v.handles h none fresh)

  module _ (n : Name) (bytes : List ℕ) (w : World) where
    -- After a write that failed the object is empty.
    write_failed :
        (obj : ℕ) (w1 : World)
        → (view w).handles obj ≡ none
        → view w1 ≡ record (view w) {
          objects = put Name-discrete (view w).objects n (some []);
          handles = put ℕ_discrete (view w).handles obj (some (opened n flags_create 0));
        }
        → (t.write_object obj bytes w1).0 ≢ success
        → view (write_and_close t bytes (success, obj, w1)).1
          ≡ record (view w) { objects = put Name-discrete (view w).objects n (some []) }
    unfolding write_and_close
    write_failed obj w1 fresh made bad =
        elim (laws.write_law obj bytes (opened n flags_create 0) [] w1
          (rw made (put_self ℕ_discrete _ obj _)) refl (rw made (put_self Name-discrete _ n _))) [
            | inl (good, _) ↦ absurd (bad good)
            | inr (_, e) ↦
                close-opened
                  (record (view w) { objects = put Name-discrete (view w).objects n (some []) }) obj
                  (opened n flags_create 0) (t.write_object obj bytes w1).1 fresh (e ∙ made)
          ]

    write_and_close-Stores :
        (obj : ℕ) (w1 : World)
        → (view w).handles obj ≡ none
        → view w1 ≡ record (view w) {
          objects = put Name-discrete (view w).objects n (some []);
          handles = put ℕ_discrete (view w).handles obj (some (opened n flags_create 0));
        }
        → Stores t n bytes w (write_and_close t bytes (success, obj, w1))
    unfolding write_and_close
    write_and_close-Stores obj w1 fresh made =
        elim (laws.write_law obj bytes o [] w1 handle refl
          (rw made (put_self Name-discrete _ n _))) [
            | inl (good, e) ↦ inl (
              good,
              close-opened
                  (record (view w) { objects = put Name-discrete (view w).objects n (some bytes) })
                  obj (opened n flags_create (0 + length bytes)) (t.write_object obj bytes w1).1
                  fresh (rw (e, made, put-put, put-put, drop-nil, append-nil)),
            )
            | inr (bad, e) ↦ inr (bad, inr (write_failed obj w1 fresh made bad))
          ]
      where
        o : Opened
        o = opened n flags_create 0

        handle : (view w1).handles obj ≡ some o
        handle = rw made (put_self ℕ_discrete _ obj _)

  pub store_object-Stores :
      (n : Name) (bytes : List ℕ) (w : World) → Stores t n bytes w (store_object t n bytes w)
  unfolding store_object
  store_object-Stores n bytes w = elim (laws.create_law n flags_create w refl) [
    | inr (bad, same) ↦ ground (arith, is_success-false (t.create_object n flags_create w).0)
    | inl (good, fresh, made) ↦
        rw (good, write_and_close) (write_and_close-Stores n bytes w _ _ fresh made)
  ]

  -- An object that was created and could not be written is left empty.
  pub store_object_failed :
      (n : Name) (bytes : List ℕ) (w w1 : World) {obj : ℕ}
      → t.create_object n flags_create w ≡ (success, obj, w1)
      → (t.write_object obj bytes w1).0 ≢ success
      → ((store_object t n bytes w).0 ≢ success)
        × (view (store_object t n bytes w).1
            ≡ record (view w) { objects = put Name-discrete (view w).objects n (some []) })
  unfolding store_object write_and_close
  store_object_failed n bytes w w1 {obj} created bad =
      rw created (elim (rw created at (laws.create_law n flags_create w refl)) [
        | inl (_, fresh, made) ↦ (bad, write_failed n bytes w obj w1 fresh made bad)
        | inr (refused, _) ↦ absurd (refused refl)
      ])

  -- Opening and closing an object tells whether it is there, and changes nothing.
  pub touch_object_lem :
      (n : Name) (w : World)
      → let (r, w') = touch_object t n w in
        (view w' ≡ view w) × (r ≡ success → (view w).objects n ≢ none)
  unfolding touch_object
  touch_object_lem n w = elim (laws.open_law n flags_read w) [
    | inr (bad, same) ↦ ground (arith, is_success-false (t.open_object n flags_read w).0)
    | inl (good, there, fresh, e) ↦
        rw good (close-opened (view w) _ (opened n flags_read 0) _ fresh e, λ _. there)
  ]

  -- Opening an object and deleting it: it is gone and nothing else has changed, or no object has
  -- changed.
  pub delete_opened_lem :
      (n : Name) (w : World)
      → let (r, w') = delete_opened t (t.open_object n flags_write_meta w) in
        ((r ≡ success)
          × (view w' ≡ record (view w) { objects = put Name-discrete (view w).objects n none }))
        ⊎ ((r ≢ success) × ((view w').objects ≡ (view w).objects))
  unfolding delete_opened
  delete_opened_lem n w = elim (laws.open_law n flags_write_meta w) [
    | inr (bad, same) ↦
        rw (is_success-false r.0 bad) (inr (bad, ap (λ (s : Secure). s.objects) same))
    | inl (good, there, fresh, e) ↦
        rw good
          (elim (laws.delete_law r.1 (opened n flags_write_meta 0) r.2
            (rw e (put_self ℕ_discrete _ r.1 _)) refl) [
              | inl (ok, e2) ↦
                  inl
                    (ok, e2 ∙ rw (e, put-put, put_same ℕ_discrete (view w).handles r.1 none fresh))
              | inr (bad, same) ↦ inr (bad, same ∙ rw e)
            ])
  ]
    where
      r : TeeResult × ℕ × World
      r = t.open_object n flags_write_meta w
