-- ===== src/Client/Pin/Fill.antt =====
-- What ca/pin/pin_ca_api.c makes of the caller's PINs in the shared memory.
use frameworks_security.Base.{
  ℕ, ◌+◌, ◌≡◌, Bool, some, List, ◌++◌, length, drop, take_all, take-append, le→leb, drop_all,
  length-append, length-drop, memcpy, arith,
}
use mathlib.Core.List.{append-nil}
use frameworks_security.Client.Answer.{memcpy_whole}
use frameworks_security.Client.Pin.{one_pin, two_pins, pin_params}

pub one_pin-whole :
    (d : Bool) (pin shm : List ℕ)
    → length shm ≡ length pin
    → one_pin d pin (length pin) shm ≡ some (pin_params d 0 pin)
unfolding one_pin
one_pin-whole d pin shm sized =
    rw (
      memcpy_whole (length pin) pin shm sized (omega arith),
      take_all (length pin) pin (omega arith),
    )

pub two_pins-whole :
    (d : Bool) (old new shm : List ℕ)
    → length shm ≡ length old + length new
    → two_pins d old (length old) new (length new) shm
      ≡ some (pin_params d (length old) (old ++ new))
unfolding two_pins memcpy
two_pins-whole d old new shm sized = rw (
  le→leb (length old) (length old) (omega arith),
  le→leb (0 + length old) (length shm) (omega (arith, sized)),
  take_all (length old) old (omega arith),
  le→leb (length new) (length new) (omega arith),
  le→leb (length old + length new) (length (old ++ drop (0 + length old) shm)) (
      omega (
        arith,
        sized,
        length-append old (drop (0 + length old) shm),
        length-drop (0 + length old) shm,
      )),
  take-append,
  take_all (length new) new (omega arith),
  drop_all (length old + length new) (old ++ drop (0 + length old) shm) (
      omega (
        arith,
        sized,
        length-append old (drop (0 + length old) shm),
        length-drop (0 + length old) shm,
      )),
  append-nil,
)
