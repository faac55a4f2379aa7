-- ===== src/Hello/Left.antt =====
-- What PersistentObjectTest of ta/hello_world/hello_world_ta.c leaves behind.
use mathlib.Core.List.{append-nil}
use frameworks_security.Base.{
  ℕ, ◌+◌, ◌≡◌, ◌≢◌, ◌==◌, ◌⊎◌, refl, ap, ◌∙◌, Bool-cases, inl, inr, some, none, List, [], ◌++◌,
  length, drop_all, bytes_eq, put, put_self, put-put, put_same, ℕ_discrete, arith,
}
use frameworks_security.Tee.{
  splice, Tee, TeeResult, ParamTypes, Opened, success, is_success, is_success-false, StorageLaws,
  Fails, Secure, Name-discrete, opened, flags_create, flags_write_meta, types_match,
}
use frameworks_security.Hello.{
  Calls, test_name, initial_data, types_test, close_exit, informed, reopened, compared, read_back,
  sought, written, persistent_object_test,
}
use frameworks_security.Hello.Laws.{CallLaws}

splice_empty : (bytes : List ℕ) → splice [] 0 bytes ≡ bytes
splice_empty bytes =
    ap (bytes ++◌) (drop_all (0 + length bytes) [] (omega arith)) ∙ append-nil bytes

module _ (t : Tee) (calls : Calls t) (laws : StorageLaws t) (more : CallLaws t calls)
    (v : Secure) where
  open t use {World, view}

  -- The object is there with this content.
  abbrev pub With : List ℕ → Secure
  With content = record v { objects = put Name-discrete v.objects test_name (some content) }

  -- What is left: an error and nothing, the object with the test data or without data and no error,
  -- no object and no error, or the object and the error of its deletion.
  abbrev pub Left : TeeResult × World → Type 0
  Left out =
      ((out.0 ≢ success) × (view out.1 ≡ v))
      ⊎ (((out.0 ≡ success)
            × ((content : List ℕ) × ((content ≡ []) ⊎ (content ≡ initial_data))
                × (view out.1 ≡ With content)))
          ⊎ (((out.0 ≡ success)
                × (view out.1 ≡ record v { objects = put Name-discrete v.objects test_name none }))
              ⊎ ((out.0 ≢ success)
                  × ((view out.1).objects
                      ≡ put Name-discrete v.objects test_name (some initial_data)))))

  abbrev Content : List ℕ → Type 0
  Content content = (content ≡ []) ⊎ (content ≡ initial_data)

  -- The object has this content and is open under this handle.
  abbrev Holds : ℕ → Opened → List ℕ → World → Type 0
  Holds h o content w = view w ≡ record v {
    objects = put Name-discrete v.objects test_name (some content);
    handles = put ℕ_discrete v.handles h (some o);
  }

  handle-Holds :
      (h : ℕ) (o : Opened) (content : List ℕ) (w : World)
      → Holds h o content w
      → (view w).handles h ≡ some o
  handle-Holds h o content w e = rw e (put_self ℕ_discrete _ h _)

  object-Holds :
      (h : ℕ) (o : Opened) (content : List ℕ) (w : World)
      → Holds h o content w
      → (view w).objects test_name ≡ some content
  object-Holds h o content w e = rw e (put_self Name-discrete _ test_name _)

  closes :
      (h : ℕ) (o : Opened) (content : List ℕ) (w : World)
      → v.handles h ≡ none
      → Holds h o content w
      → view (t.close_object h w) ≡ With content
  closes h o content w fresh e =
      laws.close_law h o w (handle-Holds h o content w e)
      ∙ rw (e, put-put, put_same ℕ_discrete v.handles h none fresh) refl

  exits :
      (h : ℕ) (o : Opened) (content : List ℕ) (w : World)
      → v.handles h ≡ none
      → Content content
      → Holds h o content w
      → Left (close_exit t calls h w)
  exits h o content w fresh known e =
      inr (inl (refl, (content, known, closes h o content w fresh e)))

  abbrev meta : Opened
  meta = opened test_name flags_write_meta 0

  abbrev at : ℕ → Opened
  at p = opened test_name flags_create p

  informed-Left :
      (h : ℕ) (w : World)
      → v.handles h ≡ none
      → Holds h meta initial_data w
      → (res : TeeResult × ℕ × World) → view res.2 ≡ view w
      → Left (informed t calls h res)
  informed-Left h w fresh e (r, size, w1) same = elim (Bool-cases (is_success r)) [
    | inr bad ↦ rw bad (exits h meta initial_data w1 fresh (inr refl) (same ∙ e))
    | inl good ↦
        rw good
          (elim (laws.delete_law h meta w1 (handle-Holds h meta initial_data w1 (same ∙ e)) refl) [
            | inl (done, gone) ↦ inr (
                inr (
                  inl (
                    done,
                    gone
                        ∙ rw (same, e, put-put, put-put, put_same ℕ_discrete v.handles h none fresh)
                            refl,
                  )))
            | inr (failed, kept) ↦
                inr (inr (inr (failed, kept ∙ ap (λ (s : Secure). s.objects) (same ∙ e))))
          ])
  ]

  reopened-Left :
      (w : World)
      → view w ≡ With initial_data
      → Left (reopened t calls (t.open_object test_name flags_write_meta w))
  reopened-Left w e = elim (laws.open_law test_name flags_write_meta w) [
    | inr (bad, same) ↦ rw (is_success-false _ bad) (
        inr (
          inl (
            refl,
            (initial_data, inr refl, more.null_law test_name flags_write_meta w bad ∙ same ∙ e),
          )))
    | inl (good, known, fresh, made) ↦ rw good (
        informed-Left (t.open_object test_name flags_write_meta w).1
          (t.open_object test_name flags_write_meta w).2 (rw e at fresh) (made ∙ rw e refl)
          (calls.object_info _ _) (more.info_law _ _))
  ]

  compared-Left :
      (h : ℕ) (o : Opened) (bytes : List ℕ) (w : World)
      → v.handles h ≡ none
      → Holds h o initial_data w
      → Left (compared t calls h bytes w)
  unfolding compared
  compared-Left h o bytes w fresh e = elim (Bool-cases (bytes_eq bytes initial_data)) [
    | inr differ ↦ rw differ (exits h o initial_data w fresh (inr refl) e)
    | inl same ↦ rw same (reopened-Left (t.close_object h w) (closes h o initial_data w fresh e))
  ]

  read_back-Left :
      (h : ℕ) (o o' : Opened) (w : World) (res : TeeResult × List ℕ × World)
      → v.handles h ≡ none
      → Holds h o initial_data w
      → ((res.0 ≡ success) × Holds h o' initial_data res.2) ⊎ Fails t res.0 w res.2
      → Left (read_back t calls h res)
  read_back-Left h o o' w (r, bytes, w1) fresh e (inr (bad, same)) =
      rw (is_success-false r bad) (exits h o initial_data w1 fresh (inr refl) (same ∙ e))
  read_back-Left h o o' w (r, bytes, w1) fresh e (inl (good, read)) =
      rw good (elim (Bool-cases (length bytes == 256)) [
        | inr short ↦ rw short (exits h o' initial_data w1 fresh (inr refl) read)
        | inl whole ↦ rw whole (compared-Left h o' bytes w1 fresh read)
      ])

  read-Left :
      (h : ℕ) (w : World)
      → v.handles h ≡ none
      → Holds h (at 0) initial_data w
      → Left (read_back t calls h (t.read_object h 256 w))
  read-Left h w fresh e =
      elim (laws.read_law h 256 (at 0) initial_data w (handle-Holds h (at 0) initial_data w e) refl
        (object-Holds h (at 0) initial_data w e)) [
          | inr failed ↦
              read_back-Left h (at 0) (at 0) w (t.read_object h 256 w) fresh e (inr failed)
          | inl (good, _, moved) ↦
              read_back-Left h (at 0) (at (0 + length (t.read_object h 256 w).1)) w
                (t.read_object h 256 w) fresh e (inl (good, moved ∙ rw (e, put-put) refl))
        ]

  sought-Left :
      (h : ℕ) (w : World)
      → v.handles h ≡ none
      → Holds h (at (0 + length initial_data)) initial_data w
      → Left (sought t calls h (calls.seek_object h 0 w))
  sought-Left h w fresh e =
      elim (more.seek_law h 0 (at (0 + length initial_data)) w
        (handle-Holds h (at (0 + length initial_data)) initial_data w e)) [
          | inr (bad, same) ↦
              rw (is_success-false _ bad)
                (exits h (at (0 + length initial_data)) initial_data _ fresh (inr refl) (same ∙ e))
          | inl (good, moved) ↦
              rw good (read-Left h (calls.seek_object h 0 w).1 fresh (moved ∙ rw (e, put-put) refl))
        ]

  written-Left :
      (h : ℕ) (w : World)
      → v.handles h ≡ none
      → Holds h (at 0) [] w
      → Left (written t calls h (t.write_object h initial_data w))
  written-Left h w fresh e =
      elim (laws.write_law h initial_data (at 0) [] w (handle-Holds h (at 0) [] w e) refl
        (object-Holds h (at 0) [] w e)) [
          | inr (bad, same) ↦
              rw (is_success-false _ bad) (exits h (at 0) [] _ fresh (inl refl) (same ∙ e))
          | inl (good, done) ↦ rw good (
              sought-Left h (t.write_object h initial_data w).1 fresh
                (done ∙ rw (e, put-put, put-put, splice_empty initial_data) refl))
        ]

  -- PersistentObjectTest fails with nothing changed, or succeeds with its object deleted; or it reports
  -- success and leaves the object, without data or with the test data; or it reports an error and the
  -- object still has the test data. No other object has changed. In all but the last case no handle has
  -- changed either. This holds for any parameter types and whatever calls fail, also the one that opens
  -- the object again.
  pub persistent_object_test_outcome :
      (types : ParamTypes) (w : World) → view w ≡ v → Left (persistent_object_test t calls types w)
  unfolding persistent_object_test
  persistent_object_test_outcome types w e = elim (Bool-cases (types_match types types_test)) [
    | inr bad ↦ rw bad (inl ((λ x. cc), e))
    | inl good ↦ rw good (elim (laws.create_law test_name flags_create w refl) [
      | inr (failed, same) ↦ rw (is_success-false _ failed) (inl (failed, same ∙ e))
      | inl (done, fresh, made) ↦ rw done (
          written-Left (t.create_object test_name flags_create w).1
            (t.create_object test_name flags_create w).2 (rw e at fresh) (made ∙ rw e refl))
    ])
  ]
