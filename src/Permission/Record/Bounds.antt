-- ===== src/Permission/Record/Bounds.antt =====
-- The count of the records is right, and their number stays within its limit.
use frameworks_security.Base.{
  ℕ, ◌+◌, ◌-◌, ◌≤◌, ◌≡◌, Bool, true, false, List, [], ◌∷◌, ◌++◌, length, length-append, arith,
}
use frameworks_security.Permission.Types.{record_keep_time}
use frameworks_security.Permission.Record.{
  PermissionRecord, PermlogQueue, remove_first, add_perm_record, retotal_loop, retotal_perm_record,
  record_permission_event,
}

-- `logn` counts the queue, which holds at most `max_count` records.
pub record IsValid (max_count : ℕ) (q : PermlogQueue) : Type 0 where
  pub counted : q.logn ≡ length q.queue
  pub bounded : length q.queue ≤ max_count

remove_first-append :
    (log : PermissionRecord) (xs : List PermissionRecord) (q : PermlogQueue)
    → q.logn ≡ length xs + 1
    → ((remove_first (xs ++ log ∷ []) q).logn ≡ length (remove_first (xs ++ log ∷ []) q).queue)
      × (length (remove_first (xs ++ log ∷ []) q).queue ≡ length xs)
unfolding remove_first
remove_first-append log [] q e = omega arith
remove_first-append log (x ∷ xs) q e = omega (arith, length-append xs (log ∷ []))

pub add_perm_record-IsValid :
    (max_count : ℕ) (log : PermissionRecord) (q : PermlogQueue)
    → IsValid max_count q
    → IsValid max_count (add_perm_record max_count log q)
unfolding add_perm_record
add_perm_record-IsValid max_count log q v = ground (
  arith,
  length-append q.queue (log ∷ []),
  remove_first-append log q.queue (record { queue = q.queue ++ log ∷ []; logn = q.logn + 1 }),
)

retotal_loop-IsValid :
    (keep curtime max_count : ℕ) (xs : List PermissionRecord) (logn : ℕ)
    → logn ≡ length xs
    → length xs ≤ max_count
    → IsValid max_count (retotal_loop keep curtime xs logn)
unfolding retotal_loop
retotal_loop-IsValid keep curtime max_count [] logn e le = record { counted = e; bounded = le }
retotal_loop-IsValid keep curtime max_count (x ∷ xs) logn e le =
    ground (arith, retotal_loop-IsValid keep curtime max_count xs (logn - 1))

pub retotal_perm_record-IsValid :
    (keep_days max_count curtime : ℕ) (q : PermlogQueue)
    → IsValid max_count q
    → IsValid max_count (retotal_perm_record keep_days curtime q)
unfolding retotal_perm_record
retotal_perm_record-IsValid keep_days max_count curtime q v =
    retotal_loop-IsValid (record_keep_time keep_days) curtime max_count q.queue q.logn v.counted
      v.bounded

-- On a queue whose count is right and within the limit, recording an event keeps the count right
-- and the limit, also when no memory is left.
pub record_permission_event-IsValid :
    (keep_days max_count : ℕ) (allocated : Bool) (curtime rawtime : ℕ)
    (package_name perm_name : List ℕ) (q : PermlogQueue)
    → IsValid max_count q
    → IsValid max_count
        (record_permission_event keep_days max_count allocated curtime rawtime package_name
          perm_name q).1
unfolding record_permission_event retotal_perm_record
record_permission_event-IsValid keep_days max_count true curtime rawtime package_name perm_name q
      v =
    add_perm_record-IsValid max_count _ _ (
      retotal_loop-IsValid (record_keep_time keep_days) curtime max_count q.queue q.logn v.counted
        v.bounded)
record_permission_event-IsValid keep_days max_count false curtime rawtime package_name perm_name q
      v =
    retotal_loop-IsValid (record_keep_time keep_days) curtime max_count q.queue q.logn v.counted
      v.bounded
