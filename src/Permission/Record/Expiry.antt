-- ===== src/Permission/Record/Expiry.antt =====
-- Which records are kept, over any series of events, and in which order they are read.
use frameworks_security.Base.{
  ℕ, ◌+◌, ◌-◌, ◌≤◌, ◌≡◌, refl, Bool, List, [], ◌∷◌, ◌++◌, ltb, leb, if◌then◌else◌, arith,
  Bool-cases, if_cases, inl, inr,
}
use frameworks_security.Permission.Types.{PermError, record_keep_time}
use frameworks_security.Permission.Record.{
  PermissionRecord, PermlogQueue, remove_first, add_perm_record, retotal_loop, retotal_perm_record,
  record_permission_event,
}
use frameworks_security.Permission.Record.Bounds.{IsValid, record_permission_event-IsValid}

-- Every record of the list has a time from `lo` up to `hi`, and the times do not fall.
abbrev pub IsOrdered : ℕ → ℕ → List PermissionRecord → Type 0
IsOrdered lo hi [] = lo ≤ hi
IsOrdered lo hi (r ∷ rs) = (lo ≤ r.recordtime) × IsOrdered r.recordtime hi rs

-- The records that are not too old at a time, wherever they stand.
unfoldable pub recent : ℕ → ℕ → List PermissionRecord → List PermissionRecord
recent keep curtime [] = []
recent keep curtime (r ∷ rs) =
    if leb curtime (r.recordtime + keep) then r ∷ recent keep curtime rs else recent keep curtime rs

recent_all :
    (keep curtime lo hi : ℕ) (rs : List PermissionRecord)
    → curtime ≤ lo + keep
    → IsOrdered lo hi rs
    → recent keep curtime rs ≡ rs
unfolding recent
recent_all keep curtime lo hi [] h o = refl
recent_all keep curtime lo hi (r ∷ rs) h o =
    ground (arith, recent_all keep curtime r.recordtime hi rs)

-- On a queue in the order of its times the loop, which looks at the first record only, drops every
-- record that is too old and no other.
pub retotal_loop-recent :
    (keep curtime lo hi : ℕ) (rs : List PermissionRecord) (logn : ℕ)
    → IsOrdered lo hi rs
    → (retotal_loop keep curtime rs logn).queue ≡ recent keep curtime rs
unfolding retotal_loop recent
retotal_loop-recent keep curtime lo hi [] logn o = refl
retotal_loop-recent keep curtime lo hi (r ∷ rs) logn o = ground (
  arith,
  retotal_loop-recent keep curtime r.recordtime hi rs (logn - 1),
  recent_all keep curtime r.recordtime hi rs,
)

IsOrdered-mono :
    (lo lo' hi hi' : ℕ) (rs : List PermissionRecord)
    → lo' ≤ lo
    → hi ≤ hi'
    → IsOrdered lo hi rs
    → IsOrdered lo' hi' rs
IsOrdered-mono lo lo' hi hi' [] p q o = omega arith
IsOrdered-mono lo lo' hi hi' (r ∷ rs) p q o =
    (omega arith, IsOrdered-mono r.recordtime r.recordtime hi hi' rs (omega arith) q o.1)

-- After the expiry at `curtime` nothing is older than the limit.
recent-IsOrdered :
    (keep curtime lo hi : ℕ) (rs : List PermissionRecord)
    → curtime ≤ hi + keep
    → IsOrdered lo hi rs
    → IsOrdered (curtime - keep) hi (recent keep curtime rs)
unfolding recent
recent-IsOrdered keep curtime lo hi [] h o = omega arith
recent-IsOrdered keep curtime lo hi (r ∷ rs) h o =
    elim (Bool-cases (leb curtime (r.recordtime + keep))) [
      | inl young ↦
          rw young
            (ground arith, rw (recent_all keep curtime r.recordtime hi rs (ground arith) o.1) o.1)
      | inr old ↦ rw old (recent-IsOrdered keep curtime r.recordtime hi rs h o.1)
    ]

append-IsOrdered :
    (lo hi hi' : ℕ) (rs : List PermissionRecord) (log : PermissionRecord)
    → IsOrdered lo hi rs
    → hi ≤ log.recordtime
    → log.recordtime ≤ hi'
    → IsOrdered lo hi' (rs ++ log ∷ [])
append-IsOrdered lo hi hi' [] log o p q = (omega arith, q)
append-IsOrdered lo hi hi' (r ∷ rs) log o p q =
    (o.0, append-IsOrdered r.recordtime hi hi' rs log o.1 p q)

remove_first-IsOrdered :
    (lo hi : ℕ) (rs : List PermissionRecord) (q : PermlogQueue)
    → q.queue ≡ rs
    → IsOrdered lo hi rs
    → IsOrdered lo hi (remove_first rs q).queue
unfolding remove_first
remove_first-IsOrdered lo hi [] q e o = rw e o
remove_first-IsOrdered lo hi (r ∷ rs) q e o =
    IsOrdered-mono r.recordtime lo hi hi rs o.0 (omega arith) o.1

add_perm_record-IsOrdered :
    (max_count lo hi hi' : ℕ) (log : PermissionRecord) (q : PermlogQueue)
    → IsOrdered lo hi q.queue
    → hi ≤ log.recordtime
    → log.recordtime ≤ hi'
    → IsOrdered lo hi' (add_perm_record max_count log q).queue
unfolding add_perm_record
add_perm_record-IsOrdered max_count lo hi hi' log q o p r =
    let all = append-IsOrdered lo hi hi' q.queue log o p r in
    if_cases (λ (c : PermlogQueue). IsOrdered lo hi' c.queue) (ltb max_count (q.logn + 1))
      (λ _.
        remove_first-IsOrdered lo hi' (q.queue ++ log ∷ [])
          (record { queue = q.queue ++ log ∷ []; logn = q.logn + 1 }) refl all)
      (λ _. all)

-- A call of record_permission_event.
pub record Event : Type 0 where
  pub allocated : Bool
  pub curtime : ℕ
  pub rawtime : ℕ
  pub package_name : List ℕ
  pub perm_name : List ℕ

-- The two readings of the clock, over a series of events, do not go back.
abbrev pub IsChronological : ℕ → List Event → Type 0
IsChronological t [] = Unit
IsChronological t (e ∷ es) =
    (t ≤ e.curtime) × (e.curtime ≤ e.rawtime) × IsChronological e.rawtime es

module _ (keep_days max_count : ℕ) where
  unfoldable pub record_event : Event → PermlogQueue → PermlogQueue
  record_event e q =
      (record_permission_event keep_days max_count e.allocated e.curtime e.rawtime e.package_name
        e.perm_name q).1

  unfoldable pub record_events : List Event → PermlogQueue → PermlogQueue
  record_events [] q = q
  record_events (e ∷ es) q = record_events es (record_event e q)

  -- The times of the last event, or the given ones if there is none.
  abbrev pub last_times : ℕ × ℕ → List Event → ℕ × ℕ
  last_times t [] = t
  last_times t (e ∷ es) = last_times (e.curtime, e.rawtime) es

  retotal-IsOrdered :
      (curtime lo hi : ℕ) (q : PermlogQueue)
      → IsOrdered lo hi q.queue
      → hi ≤ curtime
      → IsOrdered
          (curtime - record_keep_time keep_days)
          curtime
          (retotal_perm_record keep_days curtime q).queue
  unfolding retotal_perm_record
  retotal-IsOrdered curtime lo hi q o le =
      rw (retotal_loop-recent (record_keep_time keep_days) curtime lo hi q.queue q.logn o) (
        recent-IsOrdered (record_keep_time keep_days) curtime lo curtime q.queue (omega arith)
          (IsOrdered-mono lo lo hi curtime q.queue (omega arith) le o))

  record_event-IsOrdered :
      (lo hi : ℕ) (e : Event) (q : PermlogQueue)
      → IsOrdered lo hi q.queue
      → hi ≤ e.curtime
      → e.curtime ≤ e.rawtime
      → IsOrdered (e.curtime - record_keep_time keep_days) e.rawtime (record_event e q).queue
  unfolding record_event record_permission_event
  record_event-IsOrdered lo hi e q o p r =
      let least = e.curtime - record_keep_time keep_days in
      let q' = retotal_perm_record keep_days e.curtime q in
      let kept = retotal-IsOrdered e.curtime lo hi q o p in
      if_cases (λ (c : PermError × PermlogQueue). IsOrdered least e.rawtime c.1.queue) e.allocated
        (λ _.
          add_perm_record-IsOrdered max_count least e.curtime e.rawtime _ q' kept r (omega arith))
        (λ _. IsOrdered-mono least least e.curtime e.rawtime q'.queue (omega arith) r kept)

  record_event-IsValid :
      (e : Event) (q : PermlogQueue) → IsValid max_count q → IsValid max_count (record_event e q)
  unfolding record_event
  record_event-IsValid e q v =
      record_permission_event-IsValid keep_days max_count e.allocated e.curtime e.rawtime
        e.package_name e.perm_name q v

  -- From a valid queue in the order of its times, over any series of events whose clock does not go
  -- back, the count stays right, the limit is kept, the records stand in the order of their times,
  -- and none was too old at the last event.
  pub record_events_lem :
      (es : List Event) (q : PermlogQueue) (cur hi : ℕ)
      → IsValid max_count q
      → IsOrdered (cur - record_keep_time keep_days) hi q.queue
      → IsChronological hi es
      → let (cur', hi') = last_times (cur, hi) es in
        IsValid max_count (record_events es q)
        × IsOrdered (cur' - record_keep_time keep_days) hi' (record_events es q).queue
  unfolding record_events
  record_events_lem [] q cur hi v o c = (v, o)
  record_events_lem (e ∷ es) q cur hi v o c =
      record_events_lem es (record_event e q) e.curtime e.rawtime (record_event-IsValid e q v)
        (record_event-IsOrdered (cur - record_keep_time keep_days) hi e q o c.0 c.1) c.2
