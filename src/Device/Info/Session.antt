-- ===== src/Device/Info/Session.antt =====
-- device_info_set and device_info_get of tools/set_model/set_model_api.c in a row.
use mathlib.Core.List.{append_assoc, append-nil}
use frameworks_security.Base.{
  ℕ, suc, ◌+◌, ◌≡◌, refl, ◌∙◌, sym, ap, ◌≤◌, Bool, true, Bool-cases, inl, inr, Option, none, some,
  List, [], ◌∷◌, ◌++◌, length, drop, length-append, bytes_eq, bytes_eq_refl, codes, memcpy_all,
  arith,
}
use frameworks_security.Device.{Files}
use frameworks_security.Device.Info.{
  Streams, printed, check_dir_status, key_scanned, is_key_exist, got, device_info_get, append_line,
  set, device_info_set,
}
use frameworks_security.Device.Info.Lookup.{
  Fits, AllFit, file_of, lookup, scan-lookup, length-printed,
}

-- The file of the device information, as the documented calls leave it, where it can be opened.
pub record InfoLaws (f : Files) (s : Streams f) (path : List ℕ) : Type 0 where
  pub text : f.World → Option (List ℕ)
  pub access_law :
      (bytes : List ℕ) (w : f.World) → text w ≡ some bytes → f.access (codes "/data/etc") w ≡ true
  pub read_law :
      (bytes : List ℕ) (w : f.World)
      → text w ≡ some bytes
      → (h : ℕ) × (w' : f.World) × (s.fopen_read path w ≡ (some (h, bytes), w'))
        × (text w' ≡ some bytes)
  pub append_law :
      (bytes line : List ℕ) (p : ℕ) (w w1 : f.World)
      → text w ≡ some bytes
      → s.fopen_append path w ≡ (some p, w1)
      → (s.fprintf p line w1).0 ≡ true
      → text (s.fprintf p line w1).1 ≡ some (bytes ++ line)
  pub close_law : (h : ℕ) (w : f.World) → text (s.fclose h w) ≡ text w

-- The value that a key has after it was set: a first one stays.
abbrev pub kept : List ℕ → Option (List ℕ) → List ℕ
kept value none = value
kept value (some old) = old

lookup-append :
    (key value : List ℕ) (entries : List (List ℕ × List ℕ))
    → lookup key entries ≡ none
    → lookup key (entries ++ ((key, value) ∷ [])) ≡ some value
lookup-append key value [] absent = rw (bytes_eq_refl key) refl
lookup-append key value ((k, v) ∷ rest) absent = elim (Bool-cases (bytes_eq k key)) [
  | inl same ↦ absurd (cc (rw same at absent))
  | inr other ↦ rw other (lookup-append key value rest (rw other at absent))
]

file_of-append :
    (key value : List ℕ) (entries : List (List ℕ × List ℕ))
    → file_of (entries ++ ((key, value) ∷ [])) ≡ file_of entries ++ printed key value
file_of-append key value [] = append-nil (printed key value)
file_of-append key value ((k, v) ∷ rest) =
    ap (printed k v ++◌) (file_of-append key value rest)
    ∙ sym (append_assoc (printed k v) (file_of rest) (printed key value))

AllFit-append :
    (key value : List ℕ) (entries : List (List ℕ × List ℕ))
    → Fits key value
    → AllFit entries
    → AllFit (entries ++ ((key, value) ∷ []))
AllFit-append key value [] fits all = (fits, tt)
AllFit-append key value ((k, v) ∷ rest) fits (first, all) =
    (first, AllFit-append key value rest fits all)

length-file : (entries : List (List ℕ × List ℕ)) → length entries ≤ length (file_of entries)
length-file [] = omega arith
length-file ((k, v) ∷ rest) =
    omega (arith, length-file rest, length-append (printed k v) (file_of rest), length-printed k v)

module _ (f : Files) (s : Streams f) (path : List ℕ) (laws : InfoLaws f s path) where
  open f use {World}
  open laws use {text}

  pub is_key_exist-lookup :
      (key : List ℕ) (entries : List (List ℕ × List ℕ)) (w : World)
      → text w ≡ some (file_of entries)
      → AllFit entries
      → (w' : World) × (is_key_exist f s path key w ≡ some (some (lookup key entries), w'))
        × (text w' ≡ some (file_of entries))
  unfolding is_key_exist key_scanned
  is_key_exist-lookup key entries w holds fit =
      let (h, w', e, same) = laws.read_law (file_of entries) w holds in
      (
        s.fclose h w',
        rw
            (
              e,
              key_scanned,
              scan-lookup (suc (length (file_of entries))) key entries fit
                  (omega (arith, length-file entries)),
            )
            refl,
        laws.close_law h w' ∙ same,
      )

  got-value :
      (key buffer value : List ℕ) (entries : List (List ℕ × List ℕ)) (w : World)
      → text w ≡ some (file_of entries)
      → AllFit entries
      → lookup key entries ≡ some value
      → length value ≤ length buffer
      → (w' : World) × (device_info_get f s path key buffer w
          ≡ some (true, value ++ drop (length value) buffer, w'))
        × (text w' ≡ text w)
  unfolding device_info_get check_dir_status got
  got-value key buffer value entries w holds fit there room =
      let (w', e, same) = is_key_exist-lookup key entries w holds fit in
      let from_start : 0 + length value ≡ length value = omega arith in
      (
        w',
        rw
            (
              laws.access_law _ w holds,
              e,
              there,
              got,
              memcpy_all 0 value buffer (omega (arith, room)),
              from_start,
            )
            refl,
        same ∙ sym holds,
      )

  -- What the file holds after a value was set: the entries of before, or one more.
  pub set-entries :
      (key value : List ℕ) (entries : List (List ℕ × List ℕ)) (w w1 : World)
      → text w ≡ some (file_of entries)
      → AllFit entries
      → Fits key value
      → device_info_set f s path key value w ≡ some (true, w1)
      → (after : List (List ℕ × List ℕ)) × (text w1 ≡ some (file_of after))
        × AllFit after
        × (lookup key after ≡ some (kept value (lookup key entries)))
  unfolding device_info_set check_dir_status append_line set
  set-entries key value entries w w1 holds fit fits done =
      let (w', e, same) = is_key_exist-lookup key entries w holds fit in
      decided w' (lookup key entries) refl same (rw (laws.access_law _ w holds, e) at done)
    where
      appended :
          (w' : World) (o : Option ℕ × World)
          → text w' ≡ some (file_of entries)
          → s.fopen_append path w' ≡ o
          → append_line f s path (printed key value) o ≡ (true, w1)
          → text w1 ≡ some (file_of (entries ++ ((key, value) ∷ [])))
      appended w' (none, w2) same opened ran = absurd (cc (ap (λ (r : Bool × World). r.0) ran))
      appended w' (some p, w2) same opened ran =
          let wrote = ap (λ (r : Bool × World). r.0) ran in
          let closed = ap (λ (r : Bool × World). text (r.1)) ran in
          sym closed
          ∙ laws.close_law p (s.fprintf p (printed key value) w2).1
          ∙ laws.append_law (file_of entries) (printed key value) p w' w2 same opened wrote
          ∙ ap some (sym (file_of-append key value entries))

      decided :
          (w' : World) (o : Option (List ℕ))
          → lookup key entries ≡ o
          → text w' ≡ some (file_of entries)
          → set f s path key value (some (some o, w')) ≡ some (true, w1)
          → (after : List (List ℕ × List ℕ)) × (text w1 ≡ some (file_of after))
            × AllFit after
            × (lookup key after ≡ some (kept value o))
      decided w' none absent same ran = (
        entries ++ ((key, value) ∷ []),
        appended w' (s.fopen_append path w') same refl (cc ran),
        AllFit-append key value entries fits fit,
        lookup-append key value entries absent,
      )
      decided w' (some old) there same ran =
          let here : w' ≡ w1 = cc ran in (entries, rw (← here) same, fit, there)

  -- On a file of entries that each fit a line of 63 bytes, without zeros, newlines or an equals
  -- sign in a key: if device_info_set of such a key and value succeeds, device_info_get of the key
  -- succeeds, leaves the file as it is, and puts in front of the caller's buffer, where there is
  -- room, the value that the first entry of the key had, or the value that was set if there was
  -- none.
  pub info_set_then_get :
      (key value buffer : List ℕ) (entries : List (List ℕ × List ℕ)) (w w1 : World)
      → text w ≡ some (file_of entries)
      → AllFit entries
      → Fits key value
      → device_info_set f s path key value w ≡ some (true, w1)
      → length (kept value (lookup key entries)) ≤ length buffer
      → (w2 : World) × (device_info_get f s path key buffer w1
          ≡ some (
            true,
            kept value (lookup key entries)
                ++ drop (length (kept value (lookup key entries))) buffer,
            w2,
          ))
        × (text w2 ≡ text w1)
  info_set_then_get key value buffer entries w w1 holds fit fits done room =
      let (after, holds', fit', there) = set-entries key value entries w w1 holds fit fits done in
      got-value key buffer (kept value (lookup key entries)) after w1 holds' fit' there room
