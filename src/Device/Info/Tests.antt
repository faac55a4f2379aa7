-- ===== src/Device/Info/Tests.antt =====
-- The key-value file at concrete inputs: a device with one file, whose calls do not fail.
use frameworks_security.Base.{ℕ, ◌≡◌, refl, true, Option, some, List, [], ◌∷◌, ◌++◌, codes, arith}
use frameworks_security.Device.Info.{printed, scan, device_info_set}
use frameworks_security.Device.Info.Lookup.{file_of}
use frameworks_security.Device.Info.Fuel.{scan_enough}
use frameworks_security.Device.Info.Memory.{one_file, streams}

-- The key a with the value 1 is there, and b is given the value 2.
abbrev entries : List (List ℕ × List ℕ)
entries = (codes "a", codes "1") ∷ []

abbrev after_set : List ℕ
after_set = file_of entries ++ printed (codes "b") (codes "2")

set_b :
    device_info_set one_file streams
      (codes "/data/etc/info")
      (codes "b")
      (codes "2")
      (file_of entries)
    ≡ some (true, after_set)
unfolding device_info_set scan printed
set_b = refl

scan_enough_example :
    (r : Option (List ℕ)) × (scan 100 (codes "b") (codes "no line at all") ≡ some r)
scan_enough_example = scan_enough 100 (codes "b") (codes "no line at all") (omega arith)
