-- ===== src/Device/Tool/Tests.antt =====
-- The tool tools/set_model/set_model.c on a device with one file, whose calls do not fail.
use frameworks_security.Base.{
  ℕ, ◌≡◌, ◌≢◌, refl, some, none, List, [], ◌∷◌, ◌++◌, codes, replicate, bytes_eq, arith,
}
use frameworks_security.Device.{Product}
use frameworks_security.Device.Info.{printed}
use frameworks_security.Device.Info.Lookup.{AllFit, file_of}
use frameworks_security.Device.Info.Memory.{one_file, streams, streams_laws}
use frameworks_security.Device.Tool.{main}
use frameworks_security.Device.Tool.Session.{program, tool_get_decides}

abbrev path : List ℕ
path = codes "/data/etc/info"

abbrev product : Product
product = record {
  model = codes "m";
  psm_path = codes "/p";
  market_name = [];
  hardware = [];
  name = [];
  id = [];
  app_id = [];
}

abbrev colour : List ℕ
colour = codes "color_id"

-- An entry whose value the array of the tool has no room for.
abbrev long : List (List ℕ × List ℕ)
long = (colour, replicate 30 b'7') ∷ []

some_key : colour ≢ []
some_key e = cc

long-AllFit : AllFit long
long-AllFit =
    ((some_key, omega arith, omega arith, omega arith, omega arith, omega arith, omega arith), tt)

tool_get_decides_example :
    (w' : List ℕ) × (main one_file streams path [] product
        (program ∷ codes "get" ∷ colour ∷ [])
        (file_of long)
      ≡ none)
    × (some w' ≡ some (file_of long))
unfolding bytes_eq
tool_get_decides_example =
    tool_get_decides one_file streams path streams_laws [] product colour long (file_of long) refl
      long-AllFit (omega arith)

-- The colour is set on a file that does not have it, and shown.
abbrev entries : List (List ℕ × List ℕ)
entries = (codes "sn", codes "1") ∷ []

abbrev after_set : List ℕ
after_set = file_of entries ++ printed colour (codes "7")
