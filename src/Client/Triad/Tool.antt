-- ===== src/Client/Triad/Tool.antt =====
-- The command line tool ca/triad/triad_tool.c over the functions of Client/Triad. The arguments are C
-- strings, the first of them the name of the program.
pub mod Session
pub mod Status
mod Tests
use frameworks_security.Base.{
  ℕ, ◌==◌, ◌≡◌, ◌<◌, ◌^◌, Bool, true, false, Option, none, some, List, [], ◌∷◌, ◌++◌, length, take,
  replicate, bytes_eq, c_string, codes, if◌then◌else◌,
}
use frameworks_security.Decimal.{decimal}
use frameworks_security.Tee.{Tee, TeeResult, is_success}
use frameworks_security.Teec.{Teec}
use frameworks_security.Client.{Called}
use frameworks_security.Client.Triad.{
  triad_load_did, triad_load_key, triad_store_did, triad_store_key,
}

abbrev pub triad_did_size : ℕ
triad_did_size = 8

abbrev pub triad_key_size : ℕ
triad_key_size = 16

-- What the C library and the platform do with a `uint64_t`: the number at the front of a text, and
-- the bytes of the number in memory.
pub record Numbers : Type 0 where
  pub strtoull : List ℕ → ℕ
  pub bytes_of : ℕ → List ℕ
  pub load64 : List ℕ → ℕ
  pub strtoull_law : (n : ℕ) → n < 2 ^ 64 → strtoull (decimal 20 n) ≡ n
  pub bytes_of_law : (n : ℕ) → length (bytes_of n) ≡ 8
  pub load64_law : (n : ℕ) → n < 2 ^ 64 → load64 (bytes_of n) ≡ n

-- What is printed, line by line.
pub data Line : Type 0 where
  did_bytes : List ℕ → Line
  did_text : List ℕ → Line
  did_string : List ℕ → ℕ → Line
  key_data : List ℕ → Line
  get_failed : Line
  set_success : Line
  set_failed : Line
  bad_did : Line
  bad_key_length : Line
  unrecognized : List ℕ → Line

-- strcmp(word, argument) == 0
unfoldable pub is_word : List ℕ → List ℕ → Bool
is_word word argument = bytes_eq (c_string argument) word

-- snprintf(result, sizeof(result), "%" PRIu64, n), of a `char result[32]`
unfoldable pub print_u64 : ℕ → List ℕ
print_u64 n = take 31 (decimal 20 n)

module _ (num : Numbers) {t : Tee} (c : Teec t) where
  open c use {World}

  -- Whether main returns 0, and the lines that it prints. `none` is an access outside a buffer or
  -- through a null pointer.
  abbrev pub Run : Type 0
  Run = Option (Bool × List Line × World)

  -- `if (!ret)` with the lines of both branches; the value of `ret` is not returned.
  unfoldable pub reported : {A : Type 0} → (A → List Line) → List Line → Called World A → Run
  reported good bad none = none
  reported good bad (some (res, a, w)) = some (true, (if is_success res then good a else bad), w)

  unfoldable pub get_did : World → Run
  unfolding reported print_u64
  get_did w =
      reported (λ did. did_bytes did ∷ did_text (print_u64 (num.load64 did)) ∷ []) (get_failed ∷ [])
        (triad_load_did c (replicate triad_did_size 0) triad_did_size w)

  unfoldable pub get_key : World → Run
  unfolding reported
  get_key w =
      reported (λ key. key_data key ∷ []) (get_failed ∷ [])
        (triad_load_key c (replicate triad_key_size 0) triad_key_size w)

  -- The lines before those of a run.
  unfoldable pub printed_first : List Line → Run → Run
  printed_first lines none = none
  printed_first lines (some (done, more, w)) = some (done, lines ++ more, w)

  unfoldable pub set_did : List ℕ → World → Run
  unfolding reported printed_first
  set_did text w =
      let did_num = num.strtoull text in
      if did_num == 0
      then some (false, bad_did ∷ [], w)
      else printed_first (did_string text did_num ∷ did_bytes (num.bytes_of did_num) ∷ []) (
          reported (λ _. set_success ∷ []) (set_failed ∷ [])
            (triad_store_did c (num.bytes_of did_num) triad_did_size w))

  -- The loop copies each of the bytes.
  unfoldable pub set_key : List ℕ → World → Run
  unfolding reported
  set_key text w =
      if length text == triad_key_size
      then reported (λ _. set_success ∷ []) (set_failed ∷ [])
          (triad_store_key c text triad_key_size w)
      else some (false, bad_key_length ∷ [], w)

  -- main; without an argument a null pointer is printed.
  unfoldable pub main : List (List ℕ) → World → Run
  unfolding get_did get_key set_did set_key is_word
  main (_ ∷ command ∷ what ∷ []) w =
      if is_word (codes "get") command
      then (if is_word (codes "did") what
          then get_did w
          else if is_word (codes "key") what
          then get_key w
          else some (true, [], w))
      else some (false, unrecognized (c_string command) ∷ [], w)
  main (_ ∷ command ∷ what ∷ text ∷ []) w =
      if is_word (codes "set") command
      then (if is_word (codes "did") what
          then set_did (c_string text) w
          else if is_word (codes "key") what
          then set_key (c_string text) w
          else some (true, [], w))
      else some (false, unrecognized (c_string command) ∷ [], w)
  main (_ ∷ command ∷ _) w = some (false, unrecognized (c_string command) ∷ [], w)
  main _ w = none
