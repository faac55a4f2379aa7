-- ===== src/Comsst/Tests.antt =====
-- The properties of the COMSST application at concrete inputs: a device whose store takes writes of
-- up to 64 bytes, and an item named AB in the user store with the data 1, 2, 3.
use frameworks_security.Base.{ℕ, ◌≡◌, refl, List, [], ◌∷◌, some, arith, put, take, ℕ_discrete}
use frameworks_security.Tee.{TeeResult, success, Params, Name-discrete, types_match}
use frameworks_security.Tee.Memory.{Memory, device, device-storage, empty, create, write, close}
use frameworks_security.Ta.{store_object}
use frameworks_security.Ta.Device.{params}
use frameworks_security.Comsst.{
  types_item, data_size, item_object, in_buffer, write_item, verify_item, invoke_command, cmd_wr,
}
use frameworks_security.Comsst.Item.{item_data, verify_item_sound}
use frameworks_security.Comsst.Frame.{Spared, invoke_command-Spared}

-- The name AB and three bytes of data, for the user store.
abbrev item : Params
item = params 2 1 (0x41 ∷ 0x42 ∷ 1 ∷ 2 ∷ 3 ∷ [])

-- The name AB with room for the data.
abbrev reader : Params
reader = params 2 1 (0x41 ∷ 0x42 ∷ 0 ∷ 0 ∷ [])

abbrev stored : Memory
stored = (store_object device (item_object item) (item_data item) (empty 64)).1

stored-eq : write_item device types_item item (empty 64) ≡ some (success, item, stored)
unfolding write_item in_buffer types_match store_object create write close put Name-discrete
    ℕ_discrete item_object
stored-eq = refl

verify_item_sound_example :
    (r : TeeResult) × (w' : Memory) × (verify_item device types_item reader stored
      ≡ some (r, reader, w'))
    × (w'.secure ≡ stored.secure)
    × (r ≡ success
        → (types_item ≡ types_item)
          × (bytes : List ℕ) × (stored.secure.objects (item_object reader) ≡ some bytes)
          × (take data_size bytes ≡ item_data reader))
verify_item_sound_example =
    verify_item_sound device device-storage reader stored (omega arith) types_item

same_object : item_object reader ≡ item_object item
unfolding item_object
same_object = refl

invoke_command-Spared_example :
    Spared device device-storage item stored
      (omega arith)
      (invoke_command device cmd_wr types_item item stored)
invoke_command-Spared_example =
    invoke_command-Spared device device-storage item stored (omega arith) cmd_wr types_item
