-- ===== src/Client/Comsst/Session.antt =====
-- ca/comsst/comsst_ca_api.c together with ta/comsst/comsst_ta.c: writing an item and reading it.
use frameworks_security.Base.{
  memcpy_within, memcpy_out, true, ℕ, ◌+◌, ◌%◌, ◌^◌, ◌≡◌, refl, ◌∙◌, ◌≤◌, ◌<◌, inl, inr, Bool, none,
  some, List, ◌++◌, length, take, drop, take-append, length-append, ap, arith, le→leb, leb,
}
use frameworks_security.Tee.{Tee, success, types_match_refl, Params, Name, StorageLaws}
use frameworks_security.Ta.{select_storage}
use frameworks_security.Ta.Laws.{Reliable}
use frameworks_security.Teec.{Gets, Teec, App, TeecLaws, mem_input, mem_inout}
use frameworks_security.Comsst.{
  types_session, item_object, open_session, invoke_command, cmd_wr, cmd_rd,
}
use frameworks_security.Comsst.Item.{read_item_reliable}
use frameworks_security.Client.{Called, after_invoke, storage_flag, session_types}
use frameworks_security.Client.Laws.{call_memory-Results}
use frameworks_security.Client.Comsst.{
  types_item, types_read, item_params, name_only, name_and_data, item_read, data_call,
  comsst_data_write, comsst_data_read, fullname_len, max_len_of_fullname, if_short,
}
use frameworks_security.Client.Comsst.Fill.{
  full_name, fullname_len-eq, name_only-filled, name_and_data_overrun,
}

-- The application behind the client.
abbrev pub comsst_app : (t : Tee) → App t
comsst_app t = record { open_session = open_session; invoke = invoke_command t }

pub comsst_app-opens : (t : Tee) → (comsst_app t).open_session session_types ≡ success
unfolding open_session
comsst_app-opens t = rw (types_match_refl types_session)

-- The object in which an item is kept.
abbrev pub item : List ℕ → List ℕ → Bool → Name
item scope name d = record { storage = select_storage (storage_flag d); id = full_name scope name }

abbrev read_item_params : Params → List ℕ → ℕ → Params
read_item_params ps buffer read_len = record ps {
  p0 = record (ps.p0) { b = read_len };
  p1 = record (ps.p1) { buffer = buffer };
}

module _ (scope name : List ℕ) (d : Bool) (short : length (full_name scope name) ≤ 30) where
  module _ (rest : List ℕ) where
    abbrev filled : Params
    filled = item_params (length (full_name scope name)) d (full_name scope name ++ rest)

    item_object-eq : item_object filled ≡ item scope name d
    unfolding item_object
    item_object-eq = rw (take-append (full_name scope name) rest)

    named : filled.p0.a ≤ length filled.p1.buffer
    named = omega (arith, length-append (full_name scope name) rest)

  module _ (found buff shm : List ℕ) (ps : Params) where
    item_read-fits :
        length found ≤ length buff
        → item_read scope name d buff
            (read_item_params ps (found ++ drop (length found) shm) (length found))
          ≡ some (found ++ drop (length found) buff, length found)
    unfolding item_read
    item_read-fits fits =
        let from_start : 0 + length found ≡ length found = omega arith in
        rw
          (
            item_read,
            memcpy_within 0 (length found) (found ++ drop (length found) shm) buff
                (omega (arith, length-append found (drop (length found) shm)))
                (omega (arith, fits)),
            from_start,
            take-append found (drop (length found) shm),
          )
          refl

    item_read-overflows :
        length buff < length found
        → item_read scope name d buff
            (read_item_params ps (found ++ drop (length found) shm) (length found))
          ≡ none
    unfolding item_read
    item_read-overflows long =
        rw
          (
            item_read,
            memcpy_out 0 (length found) (found ++ drop (length found) shm) buff
                (omega (arith, long)),
          )
          refl

  allowed : leb (fullname_len scope name) max_len_of_fullname ≡ true
  allowed = le→leb _ _ (omega (arith, fullname_len-eq scope name short, short))

  module _ {t : Tee} (c : Teec t) (laws : StorageLaws t)
      (client : TeecLaws c (comsst_app t) ⊥) where
    open c use {World, held, tee}

    -- Where no call of the client fails, and the scope and the name have at most 30 bytes together,
    -- a write of an item without data writes past the end of the shared memory.
    pub empty_item_overruns :
        (buff : List ℕ) (w : World) → comsst_data_write scope name d c buff 0 w ≡ none
    unfolding comsst_data_write data_call if_short
    empty_item_overruns buff w =
        rw allowed
          (elim (call_memory-Results c ⊥ tt (comsst_app t) client cmd_wr types_item (λ _. some tt)
            mem_input ((0 + fullname_len scope name) % 2 ^ 32) (name_and_data scope name d buff 0) w
            (comsst_app-opens t)) [
              | inl (_, _, _, (never, _, _)) ↦ absurd never
              | inr (x, (shm, sized, q), g) ↦
                  let over =
                    name_and_data_overrun scope name d short buff shm 0
                      (omega (arith, sized, short, fullname_len-eq scope name short)) in
                  rw (rw over at q) at g
            ])

    -- What reaches the caller of an item with the bytes `found`.
    abbrev pub Delivers : World → List ℕ → List ℕ → Called World (List ℕ × ℕ) → Type 0
    Delivers w buff found out =
        (length found ≤ length buff
          → (w' : World) × (out
              ≡ some (success, (found ++ drop (length found) buff, length found), w'))
            × (held w' ≡ held w)
            × (t.view (tee w') ≡ t.view (tee w)))
        × (length buff < length found → out ≡ none)

    module _ (rel : Reliable t) (buff before : List ℕ) (out_len : ℕ) (w : World)
        (there : (t.view (tee w)).objects (item scope name d) ≡ some before) where
      delivered :
          (shm rest : List ℕ) (x : Called t.World (List ℕ × ℕ)) (out : Called World (List ℕ × ℕ))
          → length (full_name scope name ++ rest) ≡ out_len + length (full_name scope name)
          → x
            ≡ after_invoke
                (item_read scope name d buff)
                (buff, out_len)
                (invoke_command t cmd_rd types_read (filled rest) (tee w))
          → Gets c w x out
          → Delivers w buff (take (out_len + length (full_name scope name)) before) out
      unfolding invoke_command item_read
      delivered shm rest x out sized e g =
          let (tw, same, e2) =
            read_item_reliable t laws (filled rest) (tee w) (named rest) rel before
              (ap (t.view (tee w)).objects (item_object-eq rest) ∙ there) in
          (
            λ fits.
                let (w', e3, kept, reached) =
                  rw
                    (
                      e,
                      e2,
                      sized,
                      item_read-fits (take (out_len + length (full_name scope name)) before) buff
                          (full_name scope name ++ rest) (filled rest) fits,
                    )
                    at g in
                (w', e3, kept, rw reached same),
            λ long.
                rw
                  (
                    e,
                    e2,
                    sized,
                    item_read-overflows (take (out_len + length (full_name scope name)) before) buff
                        (full_name scope name ++ rest) (filled rest) long,
                  )
                  at g,
          )

      -- Where no call of the client fails, and no opening or reading on the device, the scope and
      -- the name have at most 30 bytes together, and the stated length is positive and with 30
      -- bytes more fits 32 bits: a read of a stored item, of which the shared memory takes as many
      -- bytes as the stated length and the full name have together, puts these bytes in front of
      -- the caller's buffer and gives their number, if they fit it; if they do not, it is a write
      -- past the end of the caller's buffer.
      pub comsst_data_read_decides :
          0 < out_len
          → out_len + 30 < 2 ^ 32
          → Delivers w buff
              (take (out_len + length (full_name scope name)) before)
              (comsst_data_read scope name d c buff out_len w)
      unfolding comsst_data_read if_short
      comsst_data_read_decides room small =
          rw allowed
            (elim (call_memory-Results c ⊥ (buff, out_len) (comsst_app t) client cmd_rd types_read
              (item_read scope name d buff) mem_inout ((out_len + fullname_len scope name) % 2 ^ 32)
              (name_only scope name d) w (comsst_app-opens t)) [
                | inl (_, _, _, (never, _, _)) ↦ absurd never
                | inr (x, (shm, sized, q), g) ↦
                    let (rest, e, all) = name_only-filled scope name d short shm (
                      omega (arith, sized, small, short, room, fullname_len-eq scope name short)) in
                    delivered shm rest x _
                      (omega (
                        arith,
                        all,
                        sized,
                        small,
                        short,
                        fullname_len-eq scope name short,
                        length-append (full_name scope name) rest,
                      ))
                      (rw e at q) g
              ])
