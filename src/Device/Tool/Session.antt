-- ===== src/Device/Tool/Session.antt =====
-- What the tool tools/set_model/set_model.c shows of a file of entries, and after a value was set.
use mathlib.Core.List.{append-nil}
use frameworks_security.Base.{
  ==_iff, drop_all, ltb→lt, subst, ◌-◌, drop-zeros, c_string-zeros, ℕ, ◌+◌, ◌≡◌, refl, sym, ap, ◌∙◌,
  ◌≤◌, ◌<◌, ◌==◌, Bool, true, false, Bool-cases, inl, inr, Option, none, some, List, [], ◌∷◌, ◌++◌,
  length, drop, replicate, bytes_eq, c_string, c_string-all, codes, Lacks, memcpy_all, memcpy_out,
  length-append, length-replicate, ltb, if◌then◌else◌, arith,
}
use frameworks_security.Device.{Files, Product}
use frameworks_security.Device.Info.{Streams, check_dir_status, got, device_info_get}
use frameworks_security.Device.Info.Lookup.{AllFit, file_of, lookup}
use frameworks_security.Device.Info.Session.{InfoLaws, is_key_exist-lookup}
use frameworks_security.Device.Tool.{printed_string, run_get, show, shown, main}

abbrev pub program : List ℕ
program = codes "set_model"

-- What the tool gets for a key: an error where there is none, the value where it fits the array of
-- 24 bytes with a zero behind it, and otherwise an access outside that array.
abbrev pub answer : {W : Type 0} → Option (List ℕ) → W → Option (Bool × List ℕ × W)
answer none w = some (false, [], w)
answer (some value) w = if ltb (length value) 24 then some (true, value, w) else none

lookup-Lacks :
    (key v : List ℕ) (entries : List (List ℕ × List ℕ))
    → AllFit entries
    → lookup key entries ≡ some v
    → Lacks 0 v
lookup-Lacks key v [] fit e = absurd (cc)
lookup-Lacks key v ((k, value) ∷ rest) (one, fit) e = elim (Bool-cases (bytes_eq k key)) [
  | inl same ↦ subst (Lacks 0) (cc (rw same at e)) one.4
  | inr other ↦ lookup-Lacks key v rest fit (rw other at e)
]

printed_string-some :
    (array v : List ℕ)
    → c_string array ≡ v
    → length v < length array
    → printed_string array ≡ some v
unfolding printed_string
printed_string-some array v e short =
    let other : (length v == length array) ≡ false = ground arith in rw (e, other)

-- What is printed of an array that starts with a value and goes on with zeros.
printed_string-zeros :
    (value : List ℕ)
    → Lacks 0 value
    → length value < 24
    → printed_string (value ++ drop (length value) (replicate 24 0)) ≡ some value
printed_string-zeros value v0 short =
    let zeros : List ℕ = replicate (24 - length value) 0 in
    let size : length zeros ≡ 24 - length value = length-replicate (24 - length value) 0 in
    ap (λ (t : List ℕ). printed_string (value ++ t))
      (drop-zeros (length value) 24 (24 - length value) (omega arith))
    ∙ printed_string-some (value ++ zeros) value (c_string-zeros value (24 - length value) v0)
        (omega (arith, length-append value zeros, size))

printed_string-full : (array : List ℕ) → Lacks 0 array → printed_string array ≡ none
unfolding printed_string
printed_string-full array a0 =
    let same : (length array == length array) ≡ true = ground arith in
    rw (c_string-all array a0, same)

module _ (f : Files) (s : Streams f) (path : List ℕ) (laws : InfoLaws f s path)
    (defaults : List (List ℕ × List ℕ)) (product : Product) where
  open f use {World}
  open laws use {text}

  get_found :
      (key buffer : List ℕ) (entries : List (List ℕ × List ℕ)) (w : World)
      → text w ≡ some (file_of entries)
      → AllFit entries
      → (w' : World) × (device_info_get f s path key buffer w
          ≡ got f s path buffer (some (some (lookup key entries), w')))
        × (text w' ≡ text w)
  unfolding device_info_get check_dir_status
  get_found key buffer entries w holds fit =
      let (w', e, same) = is_key_exist-lookup f s path laws key entries w holds fit in
      (w', rw (laws.access_law _ w holds, e) refl, same ∙ sym holds)

  got_fits :
      (buffer value : List ℕ) (w : World)
      → length value ≤ length buffer
      → got f s path buffer (some (some (some value), w))
        ≡ some (true, value ++ drop (length value) buffer, w)
  unfolding got
  got_fits buffer value w room =
      let from_start : 0 + length value ≡ length value = omega arith in
      rw (got, memcpy_all 0 value buffer (omega (arith, room)), from_start) refl

  got_overruns :
      (buffer value : List ℕ) (w : World)
      → length buffer < length value
      → got f s path buffer (some (some (some value), w)) ≡ none
  unfolding got
  got_overruns buffer value w room =
      rw (got, memcpy_out 0 (length value) value buffer (omega (arith, room))) refl

  run_get_found :
      (key : List ℕ) (found : Option (List ℕ)) (w : World)
      → ((value : List ℕ) → found ≡ some value → Lacks 0 value)
      → shown f s path defaults product (got f s path (replicate 24 0) (some (some found, w)))
        ≡ answer found w
  unfolding shown answer show
  run_get_found key none w v0 = unfold got in refl
  run_get_found key (some value) w v0 = elim (Bool-cases (ltb (length value) 24)) [
    | inl short ↦
        let fits : length value < 24 = ltb→lt (length value) 24 short in
        ap (shown f s path defaults product) (got_fits (replicate 24 0) value w (omega arith))
        ∙ ap (show f s path defaults product w) (printed_string-zeros value (v0 value refl) fits)
        ∙ rw short refl
    | inr long ↦ elim (Bool-cases (length value == 24)) [
      | inl full ↦
          let size : length value ≡ 24 = (==_iff (length value) 24).0 full in
          let end : value ++ drop (length value) (replicate 24 0) ≡ value =
            ap (value ++◌) (drop_all (length value) (replicate 24 0) (omega (arith, size)))
            ∙ append-nil value in
          rw long (
            ap (shown f s path defaults product)
              (got_fits (replicate 24 0) value w (omega (arith, size)))
            ∙ ap (λ t. show f s path defaults product w (printed_string t)) end
            ∙ ap (show f s path defaults product w) (printed_string-full value (v0 value refl)))
      | inr over ↦ rw long (
          ap (shown f s path defaults product)
            (got_overruns (replicate 24 0) value w (ground arith)))
    ]
  ]

  -- The command `get` of a key without a zero, on a file that is there and has entries that each
  -- fit a line of 63 bytes, without zeros and newlines and without an equals sign in a key, leaves
  -- the file as it is. Where there is no entry of the key, it fails; where the first one has a
  -- value of fewer than 24 bytes, it succeeds and prints it; and where that value is longer, it
  -- goes outside the array of 24 bytes.
  pub tool_get_decides :
      (key : List ℕ) (entries : List (List ℕ × List ℕ)) (w : World)
      → text w ≡ some (file_of entries)
      → AllFit entries
      → Lacks 0 key
      → (w' : World) × (main f s path defaults product (program ∷ codes "get" ∷ key ∷ []) w
          ≡ answer (lookup key entries) w')
        × (text w' ≡ text w)
  unfolding main run_get bytes_eq
  tool_get_decides key entries w holds fit k0 =
      let (w', e, same) = get_found key (replicate 24 0) entries w holds fit in
      (
        w',
        rw (c_string-all key k0, e)
            (run_get_found key (lookup key entries) w'
              (λ value e2. lookup-Lacks key value entries fit e2)),
        same,
      )
