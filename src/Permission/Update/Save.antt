-- ===== src/Permission/Update/Save.antt =====
-- The loop of save_permissions in permission/perm_manager.c, by the documented behaviour of a store.
use frameworks_security.Base.{
  ℕ, zero, suc, ◌≡◌, ◌≢◌, refl, sym, ap, subst, ◌∙◌, ◌≤◌, Bool, true, false, Bool-cases, inl, inr,
  Option, none, some, List, [], ◌∷◌, length, take, put, put_self, put-put, put_same, c_string,
  bytes_eq, bytes_eq_refl, bytes_eq_sound, if◌then◌else◌, arith,
}
use frameworks_security.Permission.Types.{
  ℤ, PermError, noerror, write_database_fail, PermissionInfo, check_permission_valid, is_noerror,
  g_permission_name,
}
use frameworks_security.Permission.Store.{Unqlite, Entry, Path-discrete}
use frameworks_security.Permission.Access.{Outcome}
use frameworks_security.Permission.Update.{store_info, with_unit, save_entries}
use frameworks_security.Permission.Update.Names.{In, valid-In}
use frameworks_security.Permission.Update.Laws.{print_d, Stored, WriteLaws, StoresInfo}

-- The state that the last valid element of this name has, or `acc`.
unfoldable pub last_state : List ℕ → List PermissionInfo → Option ℤ → Option ℤ
last_state key [] acc = acc
last_state key (i ∷ info) acc = last_state key info (
    if is_noerror (check_permission_valid i.name)
    then (if bytes_eq (c_string i.name) key then some i.state else acc)
    else acc)

-- The one entry of the key holds this state.
abbrev pub Knows : List ℕ → Option ℤ → List Entry → Type 0
Knows key none es = Unit
Knows key (some z) es = In (key, print_d z) es × ((v : List ℕ) → In (key, v) es → v ≡ print_d z)

-- Every key is a name of g_permission_name.
abbrev pub AllListed : List Entry → Type 0
AllListed es = (k v : List ℕ) → In (k, v) es → In k g_permission_name

bytes_eq-false : (a b : List ℕ) → bytes_eq a b ≡ false → a ≢ b
bytes_eq-false a b h e = cc (sym h ∙ ap (bytes_eq a) (sym e) ∙ bytes_eq_refl a)

Knows-store :
    (key k : List ℕ) (z : ℤ) (acc : Option ℤ) (es es' : List Entry)
    → Stored k (print_d z) es es'
    → Knows key acc es
    → Knows key (if bytes_eq k key then some z else acc) es'
Knows-store key k z acc es es' st known = elim (Bool-cases (bytes_eq k key)) [
  | inl same ↦ rw same (
      subst (λ (k' : List ℕ). Knows k' (some z) es') (bytes_eq_sound k key same)
        (st.there, st.alone))
  | inr other ↦ rw other (keeps acc (λ e. bytes_eq-false k key other (sym e)) known)
]
  where
    keeps : (a : Option ℤ) → key ≢ k → Knows key a es → Knows key a es'
    keeps none ne h = tt
    keeps (some z') ne (i, h) = (st.kept key (print_d z') ne i, λ v j. h v (st.others key v ne j))

pub AllListed-store :
    (k v : List ℕ) (es es' : List Entry)
    → Stored k v es es'
    → In k g_permission_name
    → AllListed es
    → AllListed es'
AllListed-store k v es es' st i all k' v' j = elim (Bool-cases (bytes_eq k' k)) [
  | inl same ↦ subst (λ (x : List ℕ). In x g_permission_name) (sym (bytes_eq_sound k' k same)) i
  | inr other ↦ all k' v' (st.others k' v' (bytes_eq-false k' k other) j)
]

module _ (u : Unqlite) (laws : WriteLaws u) (db : ℕ) (path key : List ℕ) where
  open u use {World, view}

  -- What the loop leaves in the file, where the last state of the key is `state`.
  abbrev pub Leaves : Option ℤ → World → Outcome u Unit → Type 0
  Leaves state w out =
      (r : PermError) × (w' : World) × (es' : List Entry) × (out ≡ some (r, tt, w'))
      × (view w' ≡ record (view w) { files = put Path-discrete (view w).files path (some es') })
      × AllListed es'
      × (r ≡ noerror → Knows key state es')

  save_invalid :
      (n : ℕ) (i : PermissionInfo) (info : List PermissionInfo) (w : World)
      → is_noerror (check_permission_valid i.name) ≡ false
      → save_entries u db (suc n) (i ∷ info) w ≡ save_entries u db n info w
  unfolding save_entries
  save_invalid n i info w e = rw e refl

  save_stored :
      (n : ℕ) (i : PermissionInfo) (info : List PermissionInfo) (w w1 : World)
      → is_noerror (check_permission_valid i.name) ≡ true
      → u.store_fmt db (c_string i.name) i.state w ≡ (true, w1)
      → save_entries u db (suc n) (i ∷ info) w ≡ save_entries u db n info w1
  unfolding save_entries store_info
  save_stored n i info w w1 e f = rw (e, f) refl

  save_failed :
      (n : ℕ) (i : PermissionInfo) (info : List PermissionInfo) (w w1 : World)
      → is_noerror (check_permission_valid i.name) ≡ true
      → u.store_fmt db (c_string i.name) i.state w ≡ (false, w1)
      → save_entries u db (suc n) (i ∷ info) w ≡ some (write_database_fail, tt, w1)
  unfolding save_entries store_info with_unit
  save_failed n i info w w1 e f = rw (e, f) refl

  last_valid :
      (i : PermissionInfo) (info : List PermissionInfo) (acc : Option ℤ)
      → is_noerror (check_permission_valid i.name) ≡ true
      → last_state key (i ∷ info) acc
        ≡ last_state key info (if bytes_eq (c_string i.name) key then some i.state else acc)
  unfolding last_state
  last_valid i info acc e = rw e refl

  last_invalid :
      (i : PermissionInfo) (info : List PermissionInfo) (acc : Option ℤ)
      → is_noerror (check_permission_valid i.name) ≡ false
      → last_state key (i ∷ info) acc ≡ last_state key info acc
  unfolding last_state
  last_invalid i info acc e = rw e refl

  same :
      {a b : Option ℤ} {w : World} {o p : Outcome u Unit}
      → a ≡ b
      → o ≡ p
      → Leaves b w p
      → Leaves a w o
  same {a} {b} {w} {o} {p} e f h = subst (λ x. Leaves x w o) (sym e) (subst (Leaves b w) (sym f) h)

  -- What the loop does with `n` elements.
  abbrev Saves : ℕ → List PermissionInfo → Type 0
  Saves n info =
      (acc : Option ℤ) (es : List Entry) (w : World)
      → n ≤ length info
      → (view w).databases db ≡ some path
      → (view w).files path ≡ some es
      → Knows key acc es
      → AllListed es
      → Leaves (last_state key (take n info) acc) w (save_entries u db n info w)

  stores :
      (n : ℕ) (i : PermissionInfo) (info : List PermissionInfo) (acc : Option ℤ) (es : List Entry)
      (w : World)
      → n ≤ length info
      → (view w).databases db ≡ some path
      → (view w).files path ≡ some es
      → Knows key acc es
      → AllListed es
      → is_noerror (check_permission_valid i.name) ≡ true
      → (res : Bool × World) → u.store_fmt db (c_string i.name) i.state w ≡ res
      → StoresInfo u path (c_string i.name) i.state es w res
      → Saves n info
      → Leaves (last_state key (i ∷ take n info) acc) w (save_entries u db (suc n) (i ∷ info) w)
  stores n i info acc es w room at file known all valid (false, w1) e kept rec = (
    write_database_fail,
    w1,
    es,
    save_failed n i info w w1 valid e,
    kept ∙ rw (put_same Path-discrete (view w).files path (some es) file) refl,
    all,
    λ bad. absurd (cc),
  )
  stores n i info acc es w room at file known all valid (true, w1) e (es', st, made) rec =
      let (r, w', es2, out, after, all', knows) =
        rec (if bytes_eq (c_string i.name) key then some i.state else acc) es' w1 room (rw made at)
          (rw made (put_self Path-discrete (view w).files path (some es')))
          (Knows-store key (c_string i.name) i.state acc es es' st known)
          (AllListed-store (c_string i.name) (print_d i.state) es es' st (valid-In i.name valid)
            all) in
      same (last_valid i (take n info) acc valid) (save_stored n i info w w1 valid e)
        (r, w', es2, out, after ∙ rw (made, put-put) refl, all', knows)

  -- With an array of `n` elements at least the loop returns; where it reports no error, the file
  -- holds the last state of each name that it was given, and all keys are listed names, if they
  -- were.
  pub save_entries-Leaves :
      (n : ℕ) (info : List PermissionInfo) (acc : Option ℤ) (es : List Entry) (w : World)
      → n ≤ length info
      → (view w).databases db ≡ some path
      → (view w).files path ≡ some es
      → Knows key acc es
      → AllListed es
      → Leaves (last_state key (take n info) acc) w (save_entries u db n info w)
  save_entries-Leaves zero info acc es w room at file known all = (
    noerror,
    w,
    es,
    unfold save_entries in refl,
    rw (put_same Path-discrete (view w).files path (some es) file) refl,
    all,
    λ _. unfold last_state in known,
  )
  save_entries-Leaves (suc n) [] acc es w room at file known all = absurd (omega arith)
  save_entries-Leaves (suc n) (i ∷ info) acc es w room at file known all =
      elim (Bool-cases (is_noerror (check_permission_valid i.name))) [
        | inr invalid ↦
            same (last_invalid i (take n info) acc invalid) (save_invalid n i info w invalid)
              (save_entries-Leaves n info acc es w (omega arith) at file known all)
        | inl valid ↦
            stores n i info acc es w (omega arith) at file known all valid
              (u.store_fmt db (c_string i.name) i.state w) refl
              (laws.store_law db path (c_string i.name) i.state es w at file)
              (save_entries-Leaves n info)
      ]
