-- ===== src/Permission/Update/One.antt =====
-- update_permission of permission/perm_manager.c: what it does to the one entry that it looks for.
use frameworks_security.Base.{
  ℕ, zero, suc, ◌≡◌, refl, ◌∙◌, ◌<◌, ◌⊎◌, Bool, true, false, Bool-cases, inl, inr, none, some, List,
  [], ◌∷◌, length, take, put, put_self, put-put, put_same, ℕ_discrete, c_string, arith,
}
use frameworks_security.Permission.Types.{
  PermError, noerror, write_database_fail, PermissionInfo, perm_name_len,
}
use frameworks_security.Permission.Store.{Unqlite, Entry, CursorLaws, Path-discrete}
use frameworks_security.Permission.Access.{Outcome, memcmp_eq}
use frameworks_security.Permission.Check.Lookup.{find_entry}
use frameworks_security.Permission.Update.{store_info, with_unit, update_entries}
use frameworks_security.Permission.Update.Laws.{print_d, Stored, WriteLaws, StoresInfo}

-- What becomes of the entries of a file, in a walk over `rest`: no entry matched, or a write failed,
-- and they stay; or an entry matched and the state was stored under the name.
abbrev pub Changes : PermissionInfo → List Entry → List Entry → PermError → List Entry → Type 0
Changes info es rest r es' =
    ((es' ≡ es) × (r ≡ noerror → find_entry info.name rest ≡ none))
    ⊎ ((r ≡ noerror)
        × ((e : Entry) × (find_entry info.name rest ≡ some e))
        × Stored (c_string info.name) (print_d info.state) es es')

find_miss :
    (name : List ℕ) (e : Entry) (es : List Entry)
    → memcmp_eq (take perm_name_len e.0) name ≡ false
    → find_entry name (e ∷ es) ≡ find_entry name es
unfolding find_entry
find_miss name e es miss = rw miss refl

find_hit :
    (name : List ℕ) (e : Entry) (es : List Entry)
    → memcmp_eq (take perm_name_len e.0) name ≡ true
    → find_entry name (e ∷ es) ≡ some e
unfolding find_entry
find_hit name e es hit = rw hit refl

find_end : (name : List ℕ) → find_entry name [] ≡ none
unfolding find_entry
find_end name = refl

module _ (u : Unqlite) (cursor : CursorLaws u) (laws : WriteLaws u) (path : List ℕ)
    (info : PermissionInfo) where
  open u use {World, view}

  -- A walk over `rest` on a file of entries `es`.
  abbrev pub Walked : ℕ → ℕ → List Entry → List Entry → World → Outcome u Unit → Type 0
  Walked db cur es rest w out =
      (r : PermError) × (w' : World) × (left : List Entry) × (es' : List Entry) × (out
        ≡ some (r, tt, w'))
      × (view w' ≡ record (view w) {
        files = put Path-discrete (view w).files path (some es');
        cursors = put ℕ_discrete (view w).cursors cur (some (db, left));
      })
      × Changes info es rest r es'

  -- Nothing is moved and nothing written.
  stays :
      (db cur : ℕ) (es rest : List Entry) (w : World)
      → (view w).files path ≡ some es
      → (view w).cursors cur ≡ some (db, rest)
      → view w ≡ record (view w) {
        files = put Path-discrete (view w).files path (some es);
        cursors = put ℕ_discrete (view w).cursors cur (some (db, rest));
      }
  stays db cur es rest w file here =
      rw
        (
          put_same Path-discrete (view w).files path (some es) file,
          put_same ℕ_discrete (view w).cursors cur (some (db, rest)) here,
        )
        refl

  stores :
      (db cur : ℕ) (es rest : List Entry) (e : Entry) (w : World)
      → (view w).files path ≡ some es
      → (view w).cursors cur ≡ some (db, e ∷ rest)
      → memcmp_eq (take perm_name_len e.0) info.name ≡ true
      → (res : Bool × World) → u.store_fmt db (c_string info.name) info.state w ≡ res
      → StoresInfo u path (c_string info.name) info.state es w res
      → Walked db cur es (e ∷ rest) w (with_unit u (store_info u db info w))
  unfolding store_info with_unit
  stores db cur es rest e w file here hit (false, w1) eq kept = rw eq (
    write_database_fail,
    w1,
    e ∷ rest,
    es,
    refl,
    kept ∙ stays db cur es (e ∷ rest) w file here,
    inl (refl, λ bad. absurd (cc)),
  )
  stores db cur es rest e w file here hit (true, w1) eq (es', st, made) = rw eq (
    noerror,
    w1,
    e ∷ rest,
    es',
    refl,
    made ∙ rw (put_same ℕ_discrete (view w).cursors cur (some (db, e ∷ rest)) here) refl,
    inr (refl, (e, find_hit info.name e rest hit), st),
  )

  pub update_entries-Walked :
      (fuel db cur : ℕ) (es rest : List Entry) (w : World)
      → (view w).databases db ≡ some path
      → (view w).files path ≡ some es
      → (view w).cursors cur ≡ some (db, rest)
      → length rest < fuel
      → Walked db cur es rest w (update_entries u fuel info db cur w)
  unfolding update_entries
  update_entries-Walked zero db cur es rest w at file here enough = absurd (ground arith)
  update_entries-Walked (suc fuel) db cur es [] w at file here enough =
      rw (cursor.valid_law cur db [] w here) (
        noerror,
        w,
        [],
        es,
        refl,
        stays db cur es [] w file here,
        inl (refl, λ _. find_end info.name),
      )
  update_entries-Walked (suc fuel) db cur es (e ∷ rest) w at file here enough =
      rw
        (
          cursor.valid_law cur db (e ∷ rest) w here,
          cursor.key_law cur perm_name_len db e rest w here,
        )
        (elim (Bool-cases (memcmp_eq (take perm_name_len e.0) info.name)) [
          | inl hit ↦ rw hit (
              stores db cur es rest e w file here hit
                (u.store_fmt db (c_string info.name) info.state w) refl
                (laws.store_law db path (c_string info.name) info.state es w at file))
          | inr miss ↦
              let moved = cursor.next_law cur db e rest w here in
              let (r, w', left, es', out, after, changes) =
                update_entries-Walked fuel db cur es rest (u.next_entry cur w) (rw moved at)
                  (rw moved file) (rw moved (put_self ℕ_discrete _ cur _)) (ground arith) in
              rw miss (
                r,
                w',
                left,
                es',
                out,
                after ∙ rw (moved, put-put) refl,
                rw (find_miss info.name e rest miss) changes,
              )
        ])
