-- ===== src/Client/Comsst/Tests.antt =====
-- The properties of the common secure storage at concrete inputs: a client in memory over a device
-- whose store takes writes of up to 64 bytes.
use frameworks_security.Client.Comsst.Fill.{full_name}
use frameworks_security.Base.{
  length, ◌≤◌, ℕ, ◌≡◌, refl, true, some, none, List, [], ◌∷◌, c_string, arith,
}
use frameworks_security.Tee.Memory.{device, device-storage, empty}
use frameworks_security.Ta.Device.{device-Reliable}
use frameworks_security.Teec.{Teec}
use frameworks_security.Teec.Local.{Local, client, client-TeecLaws, start}
use frameworks_security.Client.{Called}
use frameworks_security.Client.Comsst.{comsst_data_write, comsst_data_read}
use frameworks_security.Client.Comsst.Session.{
  comsst_app, Delivers, comsst_data_read_decides, empty_item_overruns,
}

-- The scope A and the name B.
abbrev scope_a : List ℕ
scope_a = 0x41 ∷ []

abbrev name_b : List ℕ
name_b = 0x42 ∷ []

abbrev short_name : length (full_name scope_a name_b) ≤ 30
unfolding c_string
short_name = let e : length (full_name scope_a name_b) ≡ 2 = refl in omega (arith, e)

abbrev begin : Local device
begin = start device (empty 64)

-- A device on which every item is 1, 2, 3.
abbrev full : Local device
full = start device (record (empty 64) {
  secure = record ((empty 64).secure) { objects = λ _. some (1 ∷ 2 ∷ 3 ∷ []) };
})

abbrev storage : Teec device
storage = client device (comsst_app device)

empty_item_overruns_example : comsst_data_write scope_a name_b true storage [] 0 begin ≡ none
unfolding c_string
empty_item_overruns_example =
    empty_item_overruns scope_a name_b true short_name storage device-storage
      (client-TeecLaws device (comsst_app device)) [] begin

-- A caller with room for two bytes.
comsst_data_read_decides_example :
    Delivers scope_a name_b true short_name storage device-storage
      (client-TeecLaws device (comsst_app device))
      full
      (0 ∷ 0 ∷ [])
      (1 ∷ 2 ∷ 3 ∷ [])
      (comsst_data_read scope_a name_b true storage (0 ∷ 0 ∷ []) 2 full)
unfolding c_string
comsst_data_read_decides_example =
    comsst_data_read_decides scope_a name_b true short_name storage device-storage
      (client-TeecLaws device (comsst_app device)) device-Reliable (0 ∷ 0 ∷ []) (1 ∷ 2 ∷ 3 ∷ []) 2
      full refl (omega arith) (omega arith)

-- The world after comsst_data_write, or the first one if there is none.
abbrev world_of : Called (Local device) Unit → Local device
world_of none = begin
world_of (some (_, _, w)) = w

abbrev after_write : Local device
after_write = world_of (comsst_data_write scope_a name_b true storage (7 ∷ 8 ∷ []) 2 begin)
