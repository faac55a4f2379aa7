-- ===== src/Permission/Record/Read.antt =====
-- What get_perm_record of permission/perm_manager.c returns after an event was recorded.
use mathlib.Core.List.{reverse-append}
use frameworks_security.Base.{
  ℕ, zero, suc, ◌+◌, ◌≤◌, ◌<◌, ◌≡◌, refl, ap, ◌∙◌, true, some, List, [], ◌∷◌, ◌++◌, map, reverse,
  take, replicate, length, ltb, le→leb, ◌==◌, if◌then◌else◌, arith, Bool-cases, inl, inr,
}
use frameworks_security.Permission.Types.{
  PermError, noerror, strncpy, c_string, perm_name_len, pkg_name_len,
}
use frameworks_security.Permission.Record.Bounds.{IsValid, retotal_perm_record-IsValid}
use frameworks_security.Permission.Record.{
  PermissionRecord, PermlogQueue, add_perm_record, retotal_perm_record, record_permission_event,
  get_perm_record, copy_record,
}

pad : ℕ → ℕ → List ℕ → List ℕ
pad n m s = take n (c_string s ++ replicate m 0)

-- A padded copy holds the same string as far as it fits, so copying it again changes nothing.
pad-pad : (n m : ℕ) (s : List ℕ) → n ≤ m → pad n m (pad n m s) ≡ pad n m s
unfolding pad c_string
pad-pad zero m s h = refl
pad-pad (suc n) zero s h = absurd (omega arith)
pad-pad (suc n) (suc m) [] h = refl
pad-pad (suc n) (suc m) (x ∷ s) h = elim (Bool-cases (x == 0)) [
  | inl end ↦ rw end
  | inr more ↦ rw (more, more) (ap (◌∷◌ x) (pad-pad n (suc m) s (omega arith)))
]

pub strncpy-strncpy : (n : ℕ) (s : List ℕ) → strncpy n (strncpy n s) ≡ strncpy n s
unfolding strncpy pad
strncpy-strncpy n s = pad-pad n n s (omega arith)

copy_record-strncpy :
    (a b : List ℕ) (time : ℕ)
    → let r : PermissionRecord = record {
      pkgname = strncpy pkg_name_len a;
      permname = strncpy perm_name_len b;
      recordtime = time;
    } in
      copy_record r ≡ r
unfolding copy_record
copy_record-strncpy a b time = rw (strncpy-strncpy pkg_name_len a, strncpy-strncpy perm_name_len b)

-- A record that is added to a valid queue stands last, if the limit is not zero.
add_perm_record-last :
    (max_count : ℕ) (log : PermissionRecord) (q : PermlogQueue)
    → IsValid max_count q
    → 0 < max_count
    → (older : List PermissionRecord) × ((add_perm_record max_count log q).queue
        ≡ older ++ log ∷ [])
unfolding add_perm_record
add_perm_record-last max_count log q v pos = dropped q.queue q.logn (v.counted ∙ refl)
  where
    dropped :
        (rs : List PermissionRecord) (n : ℕ)
        → n ≡ length rs
        → (older : List PermissionRecord) × ((add_perm_record max_count log
              (record { queue = rs; logn = n })).queue
            ≡ older ++ log ∷ [])
    dropped [] n e = ([], ground arith)
    dropped (r ∷ rs) n e = (if ltb max_count (n + 1) then rs else r ∷ rs, ground arith)

read_last :
    (room : ℕ) (q : PermlogQueue) (older : List PermissionRecord) (log : PermissionRecord)
    → q.queue ≡ older ++ log ∷ []
    → length q.queue ≤ room
    → copy_record log ≡ log
    → get_perm_record room q ≡ some (noerror, log ∷ map copy_record (reverse older))
unfolding get_perm_record
read_last room q older log e fits same =
    rw (le→leb (length q.queue) room fits, e, reverse-append older (log ∷ []))
      (ap (λ (r : PermissionRecord). some (noerror, r ∷ map copy_record (reverse older))) same)

module _ (keep_days max_count room curtime rawtime : ℕ) (package_name perm_name : List ℕ)
    (q : PermlogQueue) where
  abbrev pub recorded : PermError × PermlogQueue
  recorded =
      record_permission_event keep_days max_count true curtime rawtime package_name perm_name q

  -- After an event was recorded on a valid queue, with a limit that is not zero, a reader with room
  -- for all records gets the event first, as it was written.
  pub get_perm_record_newest :
      IsValid max_count q
      → 0 < max_count
      → length recorded.1.queue ≤ room
      → (older : List PermissionRecord) × (get_perm_record room recorded.1
          ≡ some (
            noerror,
            record {
              pkgname = strncpy pkg_name_len package_name;
              permname = strncpy perm_name_len perm_name;
              recordtime = rawtime;
            }
                ∷ older,
          ))
  unfolding get_perm_record record_permission_event
  get_perm_record_newest v pos fits =
      let (older, e) =
        add_perm_record-last max_count log q'
          (retotal_perm_record-IsValid keep_days max_count curtime q v) pos in
      (
        map copy_record (reverse older),
        read_last room recorded.1 older log e fits
            (copy_record-strncpy package_name perm_name rawtime),
      )
    where
      log : PermissionRecord
      log = record {
        pkgname = strncpy pkg_name_len package_name;
        permname = strncpy perm_name_len perm_name;
        recordtime = rawtime;
      }

      q' : PermlogQueue
      q' = retotal_perm_record keep_days curtime q
