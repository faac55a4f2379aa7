-- ===== src/Tee/Memory.antt =====
-- A device in memory that meets the documented laws. Its store has room for `space` bytes in one
-- write, so a write may fail; handles are given out by a counter.
use frameworks_security.Base.{
  ℕ, suc, ◌+◌, ◌≡◌, refl, inl, Option, none, some, List, [], ◌∷◌, ◌++◌, take, drop, length,
  replicate, put, put_ne, dec_lt, ◌≤◌, ◌<◌, ◌∙◌, ℕ_discrete, arith, leb, if◌then◌else◌,
}
use frameworks_security.Tee.Types.{
  TeeResult, success, error_generic, other, Name, Name-discrete, Flags, Opened, Secure,
}
use frameworks_security.Tee.Api.{Tee, opened, splice, StorageLaws, DigestLaws}

pub record Memory : Type 0 where
  pub secure : Secure
  pub next : ℕ
  pub space : ℕ
  -- Handles from `next` on are free.
  pub fresh : (k : ℕ) → next ≤ k → secure.handles k ≡ none

pub put_below :
    (f : ℕ → Option Opened) (n h : ℕ) (v : Option Opened)
    → ((k : ℕ) → n ≤ k → f k ≡ none)
    → h < n
    → (k : ℕ) → n ≤ k
    → put ℕ_discrete f h v k ≡ none
put_below f n h v free lt k le = put_ne ℕ_discrete f h v k (omega arith) ∙ free k le

open_handle : (Name → Option (List ℕ)) → Opened → Memory → TeeResult × ℕ × Memory
open_handle objects o m = (
  success,
  m.next,
  record m {
    secure = record (m.secure) {
      objects = objects;
      handles = put ℕ_discrete m.secure.handles m.next (some o);
    };
    next = suc m.next;
    fresh =
        put_below m.secure.handles (suc m.next) m.next (some o) (λ k le. m.fresh k (omega arith))
          (omega arith);
  },
)

unfoldable pub create : Name → Flags → Memory → TeeResult × ℕ × Memory
unfolding open_handle
create n f m = open_handle (put Name-discrete m.secure.objects n (some [])) (opened n f 0) m

unfoldable pub open_existing : Name → Flags → Memory → TeeResult × ℕ × Memory
unfolding open_handle
open_existing n f m = elim (m.secure.objects n) [
  | none ↦ (other 1, m.next, m)
  | some _ ↦ open_handle m.secure.objects (opened n f 0) m
]

-- The data behind a handle.
data_of : Option Opened → Secure → Option (Opened × List ℕ)
data_of none s = none
data_of (some o) s = elim (s.objects o.name) [ none ↦ none | some stored ↦ some (o, stored) ]

set_handle : (Name → Option (List ℕ)) → (h : ℕ) → Option Opened → (m : Memory) → h < m.next → Memory
set_handle objects h o m lt = record m {
  secure = record (m.secure) { objects = objects; handles = put ℕ_discrete m.secure.handles h o };
  fresh = put_below m.secure.handles m.next h o m.fresh lt;
}

unfoldable pub read : ℕ → ℕ → Memory → TeeResult × List ℕ × Memory
unfolding data_of set_handle dec_lt
read h n m = elim (data_of (m.secure.handles h) m.secure) [
  | none ↦ (error_generic, [], m)
  | some (o, stored) ↦
      let bytes = take n (drop o.position stored) in
      elim (dec_lt h m.next) [
        | no _ ↦ (error_generic, [], m)
        | yes lt ↦ (
          success,
          bytes,
          set_handle m.secure.objects h (some (opened o.name o.flags (o.position + length bytes))) m
              lt,
        )
      ]
]

unfoldable pub write : ℕ → List ℕ → Memory → TeeResult × Memory
unfolding data_of set_handle dec_lt
write h bytes m = elim (data_of (m.secure.handles h) m.secure) [
  | none ↦ (error_generic, m)
  | some (o, stored) ↦ elim (dec_lt h m.next) [
    | no _ ↦ (error_generic, m)
    | yes lt ↦
        if leb (length bytes) m.space
        then (
          success,
          set_handle
              (put Name-discrete m.secure.objects o.name (some (splice stored o.position bytes))) h
              (some (opened o.name o.flags (o.position + length bytes))) m lt,
        )
        else (other 2, m)
  ]
]

unfoldable pub close : ℕ → Memory → Memory
unfolding set_handle dec_lt
close h m = elim (dec_lt h m.next) [ yes lt ↦ set_handle m.secure.objects h none m lt | no _ ↦ m ]

unfoldable pub delete : ℕ → Memory → TeeResult × Memory
unfolding set_handle dec_lt
delete h m = elim (m.secure.handles h) [
  | none ↦ (error_generic, m)
  | some o ↦ elim (dec_lt h m.next) [
    | yes lt ↦ (success, set_handle (put Name-discrete m.secure.objects o.name none) h none m lt)
    | no _ ↦ (error_generic, m)
  ]
]

set_digest : ℕ → Option (List ℕ) → Memory → Memory
set_digest op d m = record m {
  secure = record (m.secure) { digests = put ℕ_discrete m.secure.digests op d };
}

unfoldable pub allocate : Memory → TeeResult × ℕ × Memory
unfolding set_digest
allocate m = elim (m.secure.digests (suc m.next)) [
  | some _ ↦ (other 0, 0, m)
  | none ↦ (
    success,
    suc m.next,
    record (set_digest (suc m.next) (some []) m) {
      next = suc m.next;
      fresh = λ k le. m.fresh k (omega arith);
    },
  )
]

unfoldable pub update : ℕ → List ℕ → Memory → Memory
unfolding set_digest
update op bytes m = elim (m.secure.digests op) [
  | none ↦ m
  | some taken ↦ set_digest op (some (taken ++ bytes)) m
]

-- A stand-in for SHA-256 of the right length: the sum of the bytes, padded.
sum : List ℕ → ℕ
sum [] = 0
sum (x ∷ xs) = x + sum xs

unfoldable pub checksum : List ℕ → List ℕ
unfolding sum
checksum bytes = sum bytes ∷ replicate 31 0

unfoldable pub final : ℕ → ℕ → Memory → TeeResult × List ℕ × Memory
unfolding set_digest checksum
final op room m = elim (m.secure.digests op) [
  | none ↦ (error_generic, [], m)
  | some taken ↦ (success, checksum taken, set_digest op (some []) m)
]

unfoldable pub free : ℕ → Memory → Memory
unfolding set_digest
free op m = set_digest op none m

abbrev pub device : Tee
device = record {
  World = Memory;
  view = λ m. m.secure;
  create_object = create;
  open_object = open_existing;
  read_object = read;
  write_object = write;
  close_object = close;
  delete_object = delete;
  allocate_digest = allocate;
  digest_update = update;
  digest_do_final = final;
  free_operation = free;
}

-- An empty device whose store takes writes of up to `space` bytes.
abbrev pub empty : ℕ → Memory
empty space = record {
  secure = record { objects = λ _. none; handles = λ _. none; digests = λ _. none };
  next = 1;
  space = space;
  fresh = λ k le. refl;
}

pub device-storage : StorageLaws device
unfolding create open_existing read write close delete
device-storage = record {
  create_law = λ n f m p. inl (refl, m.fresh m.next (omega arith), refl);
  open_law = λ n f m. ground (arith, m.fresh m.next (omega arith));
  read_law = λ h n o stored m p q r. ground (arith, m.fresh h);
  write_law = λ h bytes o stored m p q r. ground (arith, m.fresh h);
  close_law = λ h o m p. ground (arith, m.fresh h);
  delete_law = λ h o m p q. ground (arith, m.fresh h);
}

pub device-digest : DigestLaws device checksum
unfolding allocate update final free checksum
device-digest = record {
  sha256_length = λ bytes. refl;
  allocate_law = λ m. ground arith;
  update_law = λ op bytes taken m p. ground arith;
  final_law = λ op room taken m p. ground arith;
  free_law = λ op taken m p. refl;
}
