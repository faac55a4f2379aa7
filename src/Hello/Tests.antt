-- ===== src/Hello/Tests.antt =====
-- PersistentObjectTest of ta/hello_world/hello_world_ta.c on a device whose store takes writes of up to
-- 64 bytes, and on one with room.
use frameworks_security.Base.{ℕ, ◌≡◌, refl, some, none, put, ℕ_discrete, dec_lt, arith, length}
use frameworks_security.Tee.{TeeResult, success, error_generic, opened, Name-discrete, types_match}
use frameworks_security.Tee.Memory.{
  open_existing, Memory, device, device-storage, empty, put_below, create, write, close,
}
use frameworks_security.Hello.{Calls, types_test, initial_data, persistent_object_test}
use frameworks_security.Hello.Laws.{CallLaws}
use frameworks_security.Hello.Left.{Left, persistent_object_test_outcome}

-- The handle `h` at position `p`.
seek : ℕ → ℕ → Memory → TeeResult × Memory
seek h p m = elim (m.secure.handles h) [
  | none ↦ (error_generic, m)
  | some o ↦ elim (dec_lt h m.next) [
    | no _ ↦ (error_generic, m)
    | yes lt ↦ (
      success,
      record m {
        secure = record (m.secure) {
          handles = put ℕ_discrete m.secure.handles h (some (opened o.name o.flags p));
        };
        fresh = put_below m.secure.handles m.next h (some (opened o.name o.flags p)) m.fresh lt;
      },
    )
  ]
]

size_of : ℕ → Memory → TeeResult × ℕ × Memory
size_of h m = elim (m.secure.handles h) [
  | none ↦ (error_generic, 0, m)
  | some o ↦ elim (m.secure.objects o.name) [
    | none ↦ (error_generic, 0, m)
    | some stored ↦ (success, length stored, m)
  ]
]

abbrev calls : Calls device
calls = record { seek_object = seek; object_info = size_of }

calls_laws : CallLaws device calls
unfolding seek size_of open_existing close
calls_laws = record {
  seek_law = λ h p o m live. ground (arith, m.fresh h);
  info_law = λ h m. ground arith;
  null_law = λ n f m bad. ground arith;
}

-- The test data is longer than a write may be: the object stays, without data, and no error is
-- reported.
persistent_object_test_outcome_example :
    Left device calls device-storage calls_laws
      (empty 64).secure
      (persistent_object_test device calls types_test (empty 64))
persistent_object_test_outcome_example =
    persistent_object_test_outcome device calls device-storage calls_laws (empty 64).secure
      types_test (empty 64) refl

too_long : (persistent_object_test device calls types_test (empty 64)).0 ≡ success
unfolding persistent_object_test types_match create write close put ℕ_discrete Name-discrete
    initial_data
too_long = refl
