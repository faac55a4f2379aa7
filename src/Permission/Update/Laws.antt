-- ===== src/Permission/Update/Laws.antt =====
-- The behaviour of the unqlite calls that write, as permission/perm_manager.c relies on it: an entry
-- that was stored is in the file at once, so that the commit of unqlite_close, whose result the source
-- ignores, is assumed to lose nothing. Nothing is said of the order of the entries in a file.
use mathlib.Core.List.{append-nil}
use frameworks_security.Base.{
  ℕ, suc, ◌+◌, ◌-◌, ◌*◌, ◌^◌, ◌≡◌, ◌≢◌, refl, sym, ap, ◌∙◌, ◌<◌, Bool, true, false, Bool-cases, inl,
  inr, Option, none, some, List, [], ◌∷◌, put, ℕ_discrete, arith,
}
use frameworks_security.Permission.Types.{
  ℤ, pos, negsuc, negate, atoi, atoi_sign, atoi_digits, is_space,
}
use frameworks_security.Decimal.{is_digit, decimal, digits, digits-decimal, decimal-Starts}
use frameworks_security.Permission.Store.{
  Unqlite, Entry, OpensDb, open_create, open_readwrite, Path-discrete,
}
use frameworks_security.Permission.Update.Names.{In}

-- What the format "%d" prints of an int.
unfoldable pub print_d : ℤ → List ℕ
unfolding decimal
print_d (pos n) = decimal 10 n
print_d (negsuc n) = b'-' ∷ decimal 10 (suc n)

-- The number fits an int of 32 bits.
abbrev pub IsInt : ℤ → Type 0
IsInt (pos n) = n < 2 ^ 31
IsInt (negsuc n) = n < 2 ^ 31

digits-atoi_digits : (n : ℕ) (cs : List ℕ) → (digits n cs).0 ≡ atoi_digits n cs
unfolding digits atoi_digits is_digit
digits-atoi_digits n [] = refl
digits-atoi_digits n (c ∷ cs) = elim (Bool-cases (is_digit c)) [
  | inl digit ↦ rw digit (digits-atoi_digits (n * 10 + (c - 48)) cs)
  | inr other ↦ rw other
]

digits_end : (n : ℕ) → digits n [] ≡ (n, [])
unfolding digits
digits_end n = refl

atoi_digits-decimal : (n : ℕ) → n < 10 ^ 10 → atoi_digits 0 (decimal 10 n) ≡ n
atoi_digits-decimal n h =
    sym (digits-atoi_digits 0 (decimal 10 n))
    ∙ ap (λ ds. (digits 0 ds).0) (sym (append-nil (decimal 10 n)))
    ∙ ap (λ (r : ℕ × List ℕ). r.0) (digits-decimal 10 n [] h ∙ digits_end n)

atoi-first :
    (d : ℕ) (cs : List ℕ) → d < 10 → atoi ((48 + d) ∷ cs) ≡ pos (atoi_digits 0 ((48 + d) ∷ cs))
unfolding atoi atoi_sign is_space
atoi-first d cs h = ground arith

atoi-decimal : (n : ℕ) → n < 10 ^ 10 → atoi (decimal 10 n) ≡ pos n
atoi-decimal n h =
    let (d, rest, small, e) = decimal-Starts 9 n in
    ap atoi e
    ∙ atoi-first d rest small
    ∙ ap (λ ds. pos (atoi_digits 0 ds)) (sym e)
    ∙ ap pos (atoi_digits-decimal n h)

atoi-minus : (cs : List ℕ) → atoi (b'-' ∷ cs) ≡ negate (atoi_digits 0 cs)
unfolding atoi atoi_sign is_space
atoi-minus cs = refl

negate-suc : (n : ℕ) → negate (suc n) ≡ negsuc n
unfolding negate
negate-suc n = refl

print_d-pos : (n : ℕ) → print_d (pos n) ≡ decimal 10 n
unfolding print_d
print_d-pos n = refl

print_d-negsuc : (n : ℕ) → print_d (negsuc n) ≡ b'-' ∷ decimal 10 (suc n)
unfolding print_d
print_d-negsuc n = refl

-- atoi reads what "%d" has printed.
pub atoi-print_d : (z : ℤ) → IsInt z → atoi (print_d z) ≡ z
atoi-print_d (pos n) h = ap atoi (print_d-pos n) ∙ atoi-decimal n (omega arith)
atoi-print_d (negsuc n) h =
    ap atoi (print_d-negsuc n)
    ∙ atoi-minus (decimal 10 (suc n))
    ∙ ap negate (atoi_digits-decimal (suc n) (omega arith))
    ∙ negate-suc n

-- The entries after a store of `value` under `key`: it is the one entry of its key, and the others
-- are those that there were.
pub record Stored (key value : List ℕ) (es es' : List Entry) : Type 0 where
  pub there : In (key, value) es'
  pub alone : (v : List ℕ) → In (key, v) es' → v ≡ value
  pub others : (k v : List ℕ) → k ≢ key → In (k, v) es' → In (k, v) es
  pub kept : (k v : List ℕ) → k ≢ key → In (k, v) es → In (k, v) es'

abbrev pub entries_of : Option (List Entry) → List Entry
entries_of none = []
entries_of (some es) = es

module _ (u : Unqlite) where
  open u use {World, view}

  -- unqlite_open with UNQLITE_OPEN_CREATE: a file that is not there is made.
  abbrev pub CreatesDb : List ℕ → World → Option ℕ × World → Type 0
  CreatesDb path w (none, w') = view w' ≡ view w
  CreatesDb path w (some db, w') =
      ((view w).databases db ≡ none)
      × (view w' ≡ record (view w) {
        files = put Path-discrete (view w).files path (some (entries_of ((view w).files path)));
        databases = put ℕ_discrete (view w).databases db (some path);
      })

  abbrev pub StoresInfo : List ℕ → List ℕ → ℤ → List Entry → World → Bool × World → Type 0
  StoresInfo path key state es w (false, w') = view w' ≡ view w
  StoresInfo path key state es w (true, w') =
      (es' : List Entry) × Stored key (print_d state) es es'
      × (view w' ≡ record (view w) { files = put Path-discrete (view w).files path (some es') })

  abbrev pub RemovesFile : List ℕ → World → Bool × World → Type 0
  RemovesFile path w (false, w') = view w' ≡ view w
  RemovesFile path w (true, w') =
      view w' ≡ record (view w) { files = put Path-discrete (view w).files path none }

  pub record WriteLaws : Type 0 where
    pub create_law : (path : List ℕ) (w : World) → CreatesDb path w (u.open_db open_create path w)
    pub write_law : (path : List ℕ) (w : World) → OpensDb u path w (u.open_db open_readwrite path w)
    pub store_law :
        (db : ℕ) (path key : List ℕ) (state : ℤ) (es : List Entry) (w : World)
        → (view w).databases db ≡ some path
        → (view w).files path ≡ some es
        → StoresInfo path key state es w (u.store_fmt db key state w)
    pub remove_law : (path : List ℕ) (w : World) → RemovesFile path w (u.remove_file path w)
