-- ===== src/Triad/Gcm/RoundTrip.antt =====
-- What triad_key_ae_encrypt of ta/triad/triad_ta.c makes, triad_key_ae_decrypt takes apart.
use mathlib.Core.List.{append-nil, append_assoc}
use frameworks_security.Base.{
  length-drop, ℕ, ◌+◌, ◌*◌, ◌≡◌, refl, ◌∙◌, sym, ◌≤◌, inl, inr, Option, some, none, List, [], ◌++◌,
  length, drop, take-append, length-append, Bool-cases, memcpy_all, arith, ap,
}
use frameworks_security.Tee.{Tee, TeeResult, success, is_success}
use frameworks_security.Triad.Header.{Platform, hdr_size}
use frameworks_security.Triad.Gcm.{
  Ae, mode_encrypt, mode_decrypt, written, crypted, encrypt_final, encrypt_aad, encrypt_iv,
  encrypt_with, triad_key_ae_encrypt, decrypt_final, decrypt_tag, decrypt_aad, decrypt_iv,
  decrypt_with, triad_key_ae_decrypt,
}
use frameworks_security.Triad.Gcm.Laws.{Operation, Seal, AeLaws}
use frameworks_security.Triad.Gcm.Wire.{
  message, iv-slice, aad-slice, before-rest, length-before, slice-at, Fits, hdr_of, header,
  read-header,
}

-- The state when the operation has the vector and the additional data.
abbrev begun : (t : Tee) → Ae t → List ℕ → List ℕ → ℕ → ℕ → t.World → t.World
begun t ae iv aad tag_len op w = ae.ae_update_aad op aad (ae.ae_init op iv (tag_len * 8) w).1

module _ (t : Tee) (ae : Ae t) (p : Platform) (iv aad : List ℕ) (tag_len op : ℕ) (w : t.World)
    (starts : (ae.ae_init op iv (tag_len * 8) w).0 ≡ success) where
  encrypt-begun :
      (plain out : List ℕ)
      → Fits iv aad plain tag_len
      → triad_key_ae_encrypt t ae p op
          (header p iv aad plain tag_len ++ (iv ++ (aad ++ plain)))
          out
          w
        ≡ encrypt_final t ae op
            (hdr_of iv aad plain tag_len)
            out
            (begun t ae iv aad tag_len op w)
            (some plain)
  unfolding triad_key_ae_encrypt encrypt_with encrypt_iv encrypt_aad
  encrypt-begun plain out fits = rw (
    read-header p iv aad plain (iv ++ (aad ++ plain)) tag_len fits,
    iv-slice p iv aad tag_len plain plain,
    aad-slice p iv aad tag_len plain plain,
    starts,
    slice-at (hdr_size + length iv + length aad) (length plain)
        (message p iv aad tag_len plain plain) ((header p iv aad plain tag_len ++ iv) ++ aad) plain
        []
        (before-rest p iv aad tag_len plain plain
          ∙ ap (λ x. (header p iv aad plain tag_len ++ iv) ++ aad ++ x) (sym (append-nil plain)))
        (length-before p iv aad tag_len plain plain) refl,
  )

  decrypt-begun :
      (plain cipher tag out : List ℕ)
      → Fits iv aad plain tag_len
      → length cipher ≡ length plain
      → length tag ≡ tag_len
      → triad_key_ae_decrypt t ae p op
          (header p iv aad plain tag_len ++ (iv ++ (aad ++ (tag ++ cipher))))
          out
          w
        ≡ decrypt_final t ae op
            (hdr_of iv aad plain tag_len)
            out
            (begun t ae iv aad tag_len op w)
            tag
            (some cipher)
  unfolding triad_key_ae_decrypt decrypt_with decrypt_iv decrypt_aad decrypt_tag
  decrypt-begun plain cipher tag out fits sized tagged =
      let h = header p iv aad plain tag_len in
      let m = message p iv aad tag_len plain (tag ++ cipher) in
      let before = before-rest p iv aad tag_len plain (tag ++ cipher) in
      let up_to = length-before p iv aad tag_len plain (tag ++ cipher) in
      rw (
        read-header p iv aad plain (iv ++ (aad ++ (tag ++ cipher))) tag_len fits,
        iv-slice p iv aad tag_len plain (tag ++ cipher),
        aad-slice p iv aad tag_len plain (tag ++ cipher),
        starts,
        slice-at (hdr_size + length iv + length aad) tag_len m ((h ++ iv) ++ aad) tag cipher before
            up_to (sym tagged),
        slice-at (hdr_size + length iv + length aad + tag_len) (length plain) m
            (((h ++ iv) ++ aad) ++ tag) cipher []
            (before
              ∙ sym (append_assoc ((h ++ iv) ++ aad) tag cipher)
              ∙ ap (λ x. ((h ++ iv) ++ aad) ++ tag ++ x) (sym (append-nil cipher)))
            (omega (arith, up_to, tagged, length-append ((h ++ iv) ++ aad) tag)) (sym sized),
      )

-- The cipher text and the tag behind it, in a buffer with room for both.
layout :
    (t : Tee) (cipher tag out : List ℕ) (n : ℕ)
    → length cipher ≡ n
    → n + length tag ≤ length out
    → (rest : List ℕ) × (written t tag n (written t cipher 0 (some out))
        ≡ some (cipher ++ (tag ++ rest)))
unfolding written
layout t cipher tag out n sized room =
    let first = cipher ++ drop (0 + length cipher) out in
    let long : n + length tag ≤ length first = omega (
      arith,
      room,
      sized,
      length-append cipher (drop (0 + length cipher) out),
      length-drop (0 + length cipher) out,
    ) in
    (
      drop (n + length tag) first,
      rw (memcpy_all 0 cipher out (omega (arith, room, sized))) (
          memcpy_all n tag first long
          ∙ rw (← sized, take-append cipher (drop (0 + length cipher) out))),
    )

crypted-success :
    (t : Tee) (res : TeeResult) (len : ℕ) (w w1 : t.World) (o : Option (List ℕ)) {out : List ℕ}
    {n : Option ℕ}
    → crypted t res len w o ≡ some (success, out, n, w1)
    → (res ≡ success) × (o ≡ some out)
unfolding crypted
crypted-success t res len w w1 none done = cc
crypted-success t res len w w1 (some out') done = elim (Bool-cases (is_success res)) [
  | inl good ↦ (ground (arith, good), cc (rw good at done))
  | inr bad ↦ absurd (cc (rw bad at done))
]

module _ (t : Tee) (ae : Ae t) (p : Platform) (seal : Seal) (laws : AeLaws t ae seal)
    (iv aad plain : List ℕ) (tag_len : ℕ) (fits : Fits iv aad plain tag_len) where
  open t use {World}

  -- The operation when it has the vector and the additional data.
  abbrev with_message : Operation → Operation
  with_message o = record o { iv = iv; tag_bits = tag_len * 8; aad = aad }

  operation-begun :
      (op : ℕ) (o : Operation) (w : World)
      → laws.operations w op ≡ some o
      → (ae.ae_init op iv (tag_len * 8) w).0 ≡ success
      → laws.operations (begun t ae iv aad tag_len op w) op ≡ some (with_message o)
  operation-begun op o w keyed starts =
      laws.aad_law op (record o { iv = iv; tag_bits = tag_len * 8; aad = [] }) aad _
        (laws.init_law op o iv (tag_len * 8) w keyed starts)

  -- What is in the output buffer after an encryption that succeeded.
  encrypted-sealed :
      (op : ℕ) (o : Operation) (out out' : List ℕ) {n : Option ℕ} (w w1 : World)
      → laws.operations w op ≡ some o
      → o.mode ≡ mode_encrypt
      → (ae.ae_init op iv (tag_len * 8) w).0 ≡ success
      → length plain + tag_len ≤ length out
      → triad_key_ae_encrypt t ae p op (message p iv aad tag_len plain plain) out w
        ≡ some (success, out', n, w1)
      → let (cipher, tag) = seal o.key iv aad (tag_len * 8) plain in
        (rest : List ℕ) × (out' ≡ cipher ++ (tag ++ rest))
  unfolding encrypt_final
  encrypted-sealed op o out out' w w1 keyed mode starts room done =
      let w2 = begun t ae iv aad tag_len op w in
      let r = ae.ae_encrypt_final op plain (length plain + tag_len) tag_len w2 in
      let (good, e) =
        crypted-success t r.0 (length r.1) r.3 w1 _
          (sym (encrypt-begun t ae p iv aad tag_len op w starts plain out fits) ∙ done) in
      let sealed =
        laws.encrypt_law op (with_message o) plain (length plain + tag_len) tag_len w2
          (operation-begun op o w keyed starts) mode good in
      let (long, tagged) = laws.seal_length o.key iv aad plain tag_len in
      let e1 : r.1 ≡ (seal o.key iv aad (tag_len * 8) plain).0 =
        ap (λ (x : List ℕ × List ℕ). x.0) sealed in
      let e2 : r.2 ≡ (seal o.key iv aad (tag_len * 8) plain).1 =
        ap (λ (x : List ℕ × List ℕ). x.1) sealed in
      let (rest, l) =
        layout t (seal o.key iv aad (tag_len * 8) plain).0 (seal o.key iv aad (tag_len * 8) plain).1
          out (length plain) long (omega (arith, tagged, room)) in
      (rest, cc (sym (rw (e1, e2) at e) ∙ l))

  -- What the decryption of a sealed message ends in.
  decrypted-opened :
      (op : ℕ) (o : Operation) (out : List ℕ) (w : World)
      → laws.operations w op ≡ some o
      → o.mode ≡ mode_decrypt
      → (ae.ae_init op iv (tag_len * 8) w).0 ≡ success
      → length plain ≤ length out
      → let (cipher, tag) = seal o.key iv aad (tag_len * 8) plain in
        (w1 : World) × (triad_key_ae_decrypt t ae p op
            (message p iv aad tag_len plain (tag ++ cipher))
            out
            w
          ≡ some (success, plain ++ drop (length plain) out, some (length plain), w1))
  unfolding decrypt_final written crypted
  decrypted-opened op o out w keyed mode starts room =
      let (long, tagged) = laws.seal_length o.key iv aad plain tag_len in
      let s = seal o.key iv aad (tag_len * 8) plain in
      let w2 = begun t ae iv aad tag_len op w in
      let (good, opened) =
        laws.decrypt_law op (with_message o) plain (length plain) w2
          (operation-begun op o w keyed starts) mode (omega arith) in
      let from_start : 0 + length plain ≡ length plain = omega arith in
      (
        (ae.ae_decrypt_final op s.0 (length plain) s.1 w2).2,
        decrypt-begun t ae p iv aad tag_len op w starts plain s.0 s.1 out fits long tagged
            ∙ rw (good, opened, memcpy_all 0 plain out (omega (arith, room)), from_start),
      )

  -- For lengths that fit the header, operations with the same key that can be started, and output
  -- buffers with room: if triad_key_ae_encrypt succeeds on the header, the vector, the additional
  -- data and the plain text, its output starts with the cipher text, as long as the plain text, and
  -- the tag; and triad_key_ae_decrypt on the header, the vector, the additional data, this tag and
  -- this cipher text succeeds, with the plain text at the front of its output and its length.
  pub ae_round_trip :
      (op op2 : ℕ) (o o2 : Operation) (out out' out2 : List ℕ) {n : Option ℕ} (w w1 w2 : World)
      → laws.operations w op ≡ some o
      → laws.operations w2 op2 ≡ some o2
      → o.mode ≡ mode_encrypt
      → o2.mode ≡ mode_decrypt
      → o2.key ≡ o.key
      → (ae.ae_init op iv (tag_len * 8) w).0 ≡ success
      → (ae.ae_init op2 iv (tag_len * 8) w2).0 ≡ success
      → length plain + tag_len ≤ length out
      → length plain ≤ length out2
      → triad_key_ae_encrypt t ae p op (message p iv aad tag_len plain plain) out w
        ≡ some (success, out', n, w1)
      → (cipher tag rest : List ℕ) × (w3 : World) × (out' ≡ cipher ++ (tag ++ rest))
        × (length cipher ≡ length plain)
        × (length tag ≡ tag_len)
        × (triad_key_ae_decrypt t ae p op2 (message p iv aad tag_len plain (tag ++ cipher)) out2 w2
            ≡ some (success, plain ++ drop (length plain) out2, some (length plain), w3))
  ae_round_trip op op2 o o2 out out' out2 w w1 w2 keyed keyed2 mode mode2 same starts starts2 room
        room2 done =
      let (rest, e) = encrypted-sealed op o out out' w w1 keyed mode starts room done in
      let (w3, e3) = decrypted-opened op2 o2 out2 w2 keyed2 mode2 starts2 room2 in
      let (long, tagged) = laws.seal_length o.key iv aad plain tag_len in
      let s = seal o.key iv aad (tag_len * 8) plain in
      (s.0, s.1, rest, w3, e, long, tagged, rw (← same) e3)
