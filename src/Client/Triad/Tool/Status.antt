-- ===== src/Client/Triad/Tool/Status.antt =====
-- What ca/triad/triad_tool.c returns, whatever the device answers.
use frameworks_security.Base.{
  ℕ, ◌==◌, ◌≡◌, refl, sym, ◌∙◌, Bool, true, false, Bool-cases, inl, inr, none, some, List, [], ◌∷◌,
  length, c_string, codes, if◌then◌else◌,
}
use frameworks_security.Tee.{Tee}
use frameworks_security.Teec.{Teec}
use frameworks_security.Client.{Called}
use frameworks_security.Client.Triad.{triad_store_did, triad_store_key}
use frameworks_security.Client.Triad.Tool.{
  Numbers, Line, did_bytes, did_string, set_success, set_failed, triad_did_size, is_word,
  triad_key_size, reported, printed_first, get_did, get_key, set_did, set_key, main, Run,
}

module _ (num : Numbers) where
  -- Whether the arguments are such that the tool calls the device, or does nothing.
  set_did_status : List ℕ → Bool
  set_did_status text = if num.strtoull text == 0 then false else true

  set_key_status : List ℕ → Bool
  set_key_status text = if length text == triad_key_size then true else false

  status : List (List ℕ) → Bool
  status (_ ∷ command ∷ what ∷ []) = if is_word (codes "get") command then true else false
  status (_ ∷ command ∷ what ∷ text ∷ []) =
      if is_word (codes "set") command
      then (if is_word (codes "did") what
          then set_did_status (c_string text)
          else if is_word (codes "key") what
          then set_key_status (c_string text)
          else true)
      else false
  status _ = false

  module _ {t : Tee} (c : Teec t) where
    open c use {World}

    -- A run that returns 0 exactly if the value is true.
    abbrev Returns : Bool → Run num c → Type 0
    Returns b o = (d : Bool) (lines : List Line) (w : World) → o ≡ some (d, lines, w) → d ≡ b

    Returns-if :
        (b x y : Bool) (o p : Run num c)
        → Returns x o
        → Returns y p
        → Returns (if b then x else y) (if b then o else p)
    Returns-if true x y o p hx hy = hx
    Returns-if false x y o p hx hy = hy

    Returns-at : (b : Bool) (lines : List Line) (w : World) → Returns b (some (b, lines, w))
    Returns-at b lines w d lines' w' e = cc

    reported-Returns :
        {A : Type 0} (good : A → List Line) (bad : List Line) (o : Called World A)
        → Returns true (reported num c good bad o)
    unfolding reported
    reported-Returns good bad none d lines w e = absurd (cc)
    reported-Returns good bad (some (res, a, w)) d lines w' e = cc

    printed_first-Returns :
        (b : Bool) (lines : List Line) (o : Run num c)
        → Returns b o
        → Returns b (printed_first num c lines o)
    unfolding printed_first
    printed_first-Returns b lines none h d lines' w e = absurd (cc)
    printed_first-Returns b lines (some (d, more, w)) h d' lines' w' e = cc (h d more w refl)

    set_did-Returns :
        (text : List ℕ) (w : World) → Returns (set_did_status text) (set_did num c text w)
    unfolding set_did set_did_status
    set_did-Returns text w =
        Returns-if (num.strtoull text == 0) false true _ _ (Returns-at false _ w) (
          printed_first-Returns true
            (did_string text (num.strtoull text)
              ∷ did_bytes (num.bytes_of (num.strtoull text))
              ∷ [])
            _
            (reported-Returns (λ _. set_success ∷ []) (set_failed ∷ [])
              (triad_store_did c (num.bytes_of (num.strtoull text)) triad_did_size w)))

    set_key-Returns :
        (text : List ℕ) (w : World) → Returns (set_key_status text) (set_key num c text w)
    unfolding set_key set_key_status
    set_key-Returns text w =
        Returns-if (length text == triad_key_size) true false _ _
          (reported-Returns (λ _. set_success ∷ []) (set_failed ∷ [])
            (triad_store_key c text triad_key_size w))
          (Returns-at false _ w)

    main-status : (args : List (List ℕ)) (w : World) → Returns (status args) (main num c args w)
    unfolding main status get_did get_key
    main-status [] w = λ d lines w' e. absurd (cc)
    main-status (_ ∷ []) w = λ d lines w' e. absurd (cc)
    main-status (_ ∷ command ∷ []) w = Returns-at false _ w
    main-status (_ ∷ command ∷ what ∷ []) w =
        Returns-if (is_word (codes "get") command) true false _ _
          (λ d lines w' e. elim (Bool-cases (is_word (codes "did") what)) [
            | inl did ↦ reported-Returns _ _ _ d lines w' (rw did at e)
            | inr other ↦ elim (Bool-cases (is_word (codes "key") what)) [
              | inl key ↦ reported-Returns _ _ _ d lines w' (rw (other, key) at e)
              | inr neither ↦ cc (rw (other, neither) at e)
            ]
          ])
          (Returns-at false _ w)
    main-status (_ ∷ command ∷ what ∷ text ∷ []) w =
        Returns-if (is_word (codes "set") command) _ false _ _
          (Returns-if (is_word (codes "did") what) _ _ _ _ (set_did-Returns (c_string text) w) (
            Returns-if (is_word (codes "key") what) _ true _ _ (set_key-Returns (c_string text) w)
              (Returns-at true _ w)))
          (Returns-at false _ w)
    main-status (_ ∷ command ∷ _ ∷ _ ∷ _ ∷ _) w = Returns-at false _ w

  -- What the tool returns depends on its arguments only: two runs with the same arguments, on any two
  -- devices and in any states, that both come to an end return the same, whether or not the key or the
  -- identity could be stored or read.
  pub main_ignores_device :
      {t t' : Tee} (c : Teec t) (c' : Teec t') (args : List (List ℕ)) (w w1 : c.World)
      (v v1 : c'.World) (d d' : Bool) (lines lines' : List Line)
      → main num c args w ≡ some (d, lines, w1)
      → main num c' args v ≡ some (d', lines', v1)
      → d ≡ d'
  main_ignores_device c c' args w w1 v v1 d d' lines lines' e e' =
      main-status c args w d lines w1 e ∙ sym (main-status c' args v d' lines' v1 e')
