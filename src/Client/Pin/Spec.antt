-- ===== src/Client/Pin/Spec.antt =====
-- What the PIN service promises the programs that call ca/pin/pin_ca_api.c: two slots, and what each
-- request may do to them.
use frameworks_security.Base.{ℕ, ◌≡◌, Bool, true, false, Option, none, some, List, [], take}

-- The PIN of the store that cannot be wiped and of the one that can, by `is_deletable`.
abbrev pub Pins : Type 0
Pins = Bool → Option (List ℕ)

abbrev pub with_pin : Bool → Option (List ℕ) → Pins → Pins
with_pin true v s true = v
with_pin true v s false = s false
with_pin false v s true = s true
with_pin false v s false = v

pub data PinRequest : Type 0 where
  store : Bool → List ℕ → PinRequest
  verify : Bool → List ℕ → PinRequest
  change : Bool → List ℕ → List ℕ → PinRequest
  is_exist : Bool → PinRequest
  delete : Bool → PinRequest

-- A request, whether it is accepted, and the slots before and after. Any request may fail with
-- nothing changed. What is stored is compared up to its first 32 bytes.
pub data PinStep : PinRequest → Bool → Pins → Pins → Type 0 where
  failed : (q : PinRequest) (s : Pins) → PinStep q false s s
  stored :
      (d : Bool) (pin : List ℕ) (s : Pins) → PinStep (store d pin) true s (with_pin d (some pin) s)
  emptied :
      (d : Bool) (pin : List ℕ) (s : Pins) → PinStep (store d pin) false s (with_pin d (some []) s)
  accepted :
      (d : Bool) (pin old : List ℕ) (s : Pins)
      → s d ≡ some old
      → take 32 old ≡ pin
      → PinStep (verify d pin) true s s
  changed :
      (d : Bool) (pin new old : List ℕ) (s : Pins)
      → s d ≡ some old
      → take 32 old ≡ pin
      → PinStep (change d pin new) true s (with_pin d (some new) s)
  change_emptied :
      (d : Bool) (pin new old : List ℕ) (s : Pins)
      → s d ≡ some old
      → take 32 old ≡ pin
      → PinStep (change d pin new) false s (with_pin d (some []) s)
  found : (d : Bool) (old : List ℕ) (s : Pins) → s d ≡ some old → PinStep (is_exist d) true s s
  deleted : (d : Bool) (s : Pins) → PinStep (delete d) true s (with_pin d none s)
