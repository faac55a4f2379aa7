-- ===== src/Device/Tool.antt =====
-- The command line tool tools/set_model/set_model.c over the functions of Device and Device/Info.
-- The arguments are C strings, the first of them the name of the program.
pub mod Session
mod Tests
use frameworks_security.Base.{
  ℕ, ◌==◌, ◌&&◌, ◌||◌, Bool, true, false, Option, none, some, List, [], ◌∷◌, length, replicate,
  bytes_eq, c_string, codes, if◌then◌else◌,
}
use frameworks_security.Device.{Files, Product, psm_info_write}
use frameworks_security.Device.Info.{
  Streams, device_info_get, device_info_set, device_info_clear, default_device_info_set,
}

abbrev pub product_sn_len : ℕ
product_sn_len = 15

abbrev pub product_mac_wifi_len : ℕ
product_mac_wifi_len = 17

abbrev pub product_mac_bt_len : ℕ
product_mac_bt_len = 17

abbrev pub product_miio_did_len : ℕ
product_miio_did_len = 10

abbrev pub product_miio_key_len : ℕ
product_miio_key_len = 16

abbrev pub product_color_id_len : ℕ
product_color_id_len = 1

abbrev pub product_color_desc_len : ℕ
product_color_desc_len = 15

-- strcmp(argument, word) == 0
unfoldable pub is_word : List ℕ → List ℕ → Bool
is_word argument word = bytes_eq (c_string argument) word

-- The tests of the property and of strlen of its value.
unfoldable pub accepts : List ℕ → ℕ → Bool
unfolding is_word
accepts property size =
    (is_word property (codes "sn") && size == product_sn_len)
    || ((is_word property (codes "mac_wifi") && size == product_mac_wifi_len)
        || ((is_word property (codes "mac_bt") && size == product_mac_bt_len)
            || ((is_word property (codes "miio_did") && (size == product_miio_did_len || size == 9))
                || ((is_word property (codes "miio_key") && size == product_miio_key_len)
                    || ((is_word property (codes "color_id") && size == product_color_id_len)
                        || (is_word property (codes "color_desc")
                            && size == product_color_desc_len))))))

-- What `%s` prints of a char array. `none` is a read past its end.
unfoldable pub printed_string : List ℕ → Option (List ℕ)
unfolding c_string
printed_string array =
    if length (c_string array) == length array then none else some (c_string array)

module _ (f : Files) (s : Streams f) (device_info_path : List ℕ) (defaults : List (List ℕ × List ℕ))
    (product : Product) where
  open f use {World}

  -- Whether main returns 0, and the value that it prints. `none` is an access outside an array or
  -- through a null pointer.
  abbrev pub Run : Type 0
  Run = Option (Bool × List ℕ × World)

  unfoldable pub quiet : Option (Bool × World) → Run
  quiet none = none
  quiet (some (done, w)) = some (done, [], w)

  -- `set`
  unfoldable pub run_set : List ℕ → List ℕ → World → Run
  unfolding quiet
  run_set property value w =
      if accepts property (length (c_string value))
      then quiet (device_info_set f s device_info_path (c_string property) (c_string value) w)
      else some (false, [], w)

  unfoldable pub show : World → Option (List ℕ) → Run
  show w none = none
  show w (some value) = some (true, value, w)

  unfoldable pub shown : Option (Bool × List ℕ × World) → Run
  unfolding show printed_string
  shown none = none
  shown (some (false, value, w)) = some (false, [], w)
  shown (some (true, value, w)) = show w (printed_string value)

  -- `get`, into `char value[24]`
  unfoldable pub run_get : List ℕ → World → Run
  unfolding shown
  run_get property w =
      shown (device_info_get f s device_info_path (c_string property) (replicate 24 0) w)

  -- `reset`, `setpsm` and `setdefault`
  unfoldable pub run_word : List ℕ → World → Run
  unfolding quiet is_word
  run_word word w =
      if is_word word (codes "reset")
      then quiet (some (device_info_clear f s device_info_path w))
      else if is_word word (codes "setpsm")
      then quiet (some (psm_info_write f product w))
      else if is_word word (codes "setdefault")
      then quiet (default_device_info_set f s device_info_path defaults w)
      else some (false, [], w)

  -- main; without an argument the null pointer behind the program's name is printed.
  unfoldable pub main : List (List ℕ) → World → Run
  unfolding run_set run_get run_word is_word
  main [] w = some (false, [], w)
  main (_ ∷ []) w = none
  main (_ ∷ command ∷ []) w = run_word command w
  main (_ ∷ command ∷ property ∷ []) w =
      if is_word command (codes "get") then run_get property w else some (false, [], w)
  main (_ ∷ command ∷ property ∷ value ∷ []) w =
      if is_word command (codes "set") then run_set property value w else some (false, [], w)
  main (_ ∷ _ ∷ _ ∷ _ ∷ _ ∷ _) w = some (false, [], w)
