-- ===== src/Permission/Laws.antt =====
-- What a function that reads a database through a cursor does around its loop, by the documented
-- laws of the cursor: get_path, unqlite_open, unqlite_kv_cursor_init and the two calls at the end.
use frameworks_security.Base.{
  ℕ, ◌<◌, ◌≡◌, refl, ◌⊎◌, inl, inr, ◌∙◌, Option, none, some, List, [], ◌++◌, length, put, put_self,
  put-put, put_same, ℕ_discrete, Option-cases, Bool-cases, lt→ltb,
}
use frameworks_security.Permission.Types.{PermError, generic_error, open_database_fail, c_string}
use frameworks_security.Permission.Store.{
  Unqlite, Entry, CursorLaws, InitsCursor, OpensDb, open_readonly,
}
use frameworks_security.Permission.Access.{
  Outcome, perm_path_prefix, check_permission_dir, get_path, opened_db, open_path, open_package,
  close_all, with_cursor, with_opened, with_package,
}

abbrev pub package_path : List ℕ → List ℕ
package_path package_name = perm_path_prefix ++ c_string package_name

module _ (u : Unqlite) where
  open u use {World, view}

  -- The cursor stands at the entries.
  abbrev pub At : ℕ → ℕ → List Entry → World → World → Type 0
  At db cur rest w w' =
      view w' ≡ record (view w) { cursors = put ℕ_discrete (view w).cursors cur (some (db, rest)) }

  module _ {A : Type 0} where
    -- The body returned in a world where only the cursor has moved, and its result is good.
    abbrev pub Walked : (PermError → A → World → Type 0) → ℕ → ℕ → World → Outcome u A → Type 0
    Walked Good db cur w out =
        (r : PermError) × (a : A) × (w' : World) × (rest : List Entry) × (out ≡ some (r, a, w'))
        × Good r a w'
        × At db cur rest w w'

    -- The function returned, and nothing that is stored has changed, nor is anything left open.
    -- It could not read the database, or the result of its body is good.
    abbrev pub Reads : (PermError → A → World → Type 0) → A → World → Outcome u A → Type 0
    Reads Good a w out =
        (r : PermError) × (a' : A) × (w' : World) × (out ≡ some (r, a', w'))
        × (view w' ≡ view w)
        × ((((r ≡ generic_error) ⊎ (r ≡ open_database_fail)) × (a' ≡ a))
            ⊎ ((w2 : World) × Good r a' w2))

module _ (u : Unqlite) (laws : CursorLaws u) {A : Type 0} (Good : PermError → A → u.World → Type 0)
    (a : A) (path : List ℕ) where
  open u use {World, view}

  -- What is asked of the body, for the entries that the file has.
  abbrev pub Walks : (ℕ → ℕ → World → Outcome u A) → World → Type 0
  Walks body w =
      (db cur : ℕ) (entries : List Entry) (w1 : World)
      → (view w).files path ≡ some entries
      → (view w1).cursors cur ≡ some (db, entries)
      → Walked u Good db cur w1 (body db cur w1)

  abbrev Open : ℕ → World → World → Type 0
  Open db w w' =
      view w' ≡ record (view w) { databases = put ℕ_discrete (view w).databases db (some path) }

  closes :
      (db : ℕ) (w w1 : World)
      → (view w).databases db ≡ none
      → Open db w w1
      → view (u.close_db db w1) ≡ view w
  closes db w w1 fresh e =
      laws.close_law db path w1 (rw e (put_self ℕ_discrete _ db _))
      ∙ rw (e, put-put, put_same ℕ_discrete (view w).databases db none fresh)

  -- Releasing the cursor and closing the database undo what the opening has done.
  releases :
      (db cur : ℕ) (rest : List Entry) (w w1 : World)
      → (view w).databases db ≡ none
      → (view w).cursors cur ≡ none
      → view w1 ≡ record (view w) {
        databases = put ℕ_discrete (view w).databases db (some path);
        cursors = put ℕ_discrete (view w).cursors cur (some (db, rest));
      }
      → view (u.close_db db (u.cursor_release db cur w1)) ≡ view w
  releases db cur rest w w1 fresh free e = closes db w (u.cursor_release db cur w1) fresh (
      laws.release_law cur db rest w1 (rw e (put_self ℕ_discrete _ cur _))
      ∙ rw (e, put-put, put_same ℕ_discrete (view w).cursors cur none free))

  with_cursor-Reads :
      (body : ℕ → ℕ → World → Outcome u A) (db : ℕ) (entries : List Entry) (w w1 : World)
      → Walks body w
      → (view w).files path ≡ some entries
      → (view w).databases db ≡ none
      → Open db w w1
      → (r : Option ℕ × World) → InitsCursor u db w1 r
      → Reads u Good a w (with_cursor u db a (body db) r)
  unfolding with_cursor close_all
  with_cursor-Reads body db entries w w1 walk file fresh e (none, w2) same = (
    generic_error,
    a,
    u.close_db db w2,
    refl,
    closes db w w2 fresh (same ∙ e),
    inl (inl refl, refl),
  )
  with_cursor-Reads body db entries w w1 walk file fresh e (some cur, w2) (free, e2) =
      let (r, a', w4, rest, out, good, e4) =
        walk db cur entries w3 file (rw e3 (put_self ℕ_discrete _ cur _)) in
      (
        r,
        a',
        u.close_db db (u.cursor_release db cur w4),
        rw out refl,
        releases db cur rest w w4 fresh (rw e at free) (rw (e4, e3, put-put)),
        inr (w4, good),
      )
    where
      w3 : World
      w3 = u.first_entry cur w2

      e3 : view w3 ≡ record (view w) {
        databases = put ℕ_discrete (view w).databases db (some path);
        cursors = put ℕ_discrete (view w).cursors cur (some (db, entries));
      }
      e3 =
          laws.first_law cur db path [] entries w2 (rw e2 (put_self ℕ_discrete _ cur _))
            (rw (e2, e) (put_self ℕ_discrete _ db _)) (rw (e2, e) file)
          ∙ rw (e2, e, put-put)

  with_opened-Reads :
      (body : ℕ → ℕ → World → Outcome u A) (w w0 : World)
      → Walks body w
      → view w0 ≡ view w
      → (r : Option ℕ × World) → OpensDb u path w0 r
      → Reads u Good a w (with_opened u a body (opened_db u r))
  unfolding with_opened opened_db
  with_opened-Reads body w w0 walk same (none, w1) kept =
      (open_database_fail, a, w1, refl, kept ∙ same, inl (inr refl, refl))
  with_opened-Reads body w w0 walk same (some db, w1) (there, fresh, e) =
      elim (Option-cases ((view w).files path)) [
        | inl missing ↦ absurd (rw same at there missing)
        | inr (entries, file) ↦
            (with_cursor-Reads body db entries w w1 walk file (rw same at fresh) (rw same at e)
              (u.cursor_init db w1) (laws.init_law db path w1 (rw e (put_self ℕ_discrete _ db _))))
      ]

module _ (u : Unqlite) (laws : CursorLaws u) (path_max : ℕ) {A : Type 0} where
  open u use {World, view}

  pub with_package-Reads :
      (Good : PermError → A → World → Type 0) (a : A) (package_name : List ℕ)
      (body : ℕ → ℕ → World → Outcome u A) (w : World)
      → length (package_path package_name) < path_max
      → Walks u laws Good a (package_path package_name) body w
      → Reads u Good a w (with_package u path_max open_readonly package_name a body w)
  unfolding with_package open_package get_path check_permission_dir open_path with_opened
  with_package-Reads Good a package_name body w short walk = elim (Bool-cases (u.mkdir w).0) [
    | inl made ↦
        rw (made, lt→ltb _ _ short)
          (with_opened-Reads u laws Good a (package_path package_name) body w (u.mkdir w).1 walk
            (laws.mkdir_law w) (u.open_db open_readonly (package_path package_name) (u.mkdir w).1)
            (laws.open_law (package_path package_name) (u.mkdir w).1))
    | inr failed ↦
        rw failed (generic_error, a, (u.mkdir w).1, refl, laws.mkdir_law w, inl (inl refl, refl))
  ]
