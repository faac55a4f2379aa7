-- ===== src/Device.antt =====
-- tools/set_model/set_model_api.c: the checksum of the product model and the file that psm_info_write
-- leaves for the cloud service; the key-value file of the device information is in Device/Info. `false`
-- is the result -1.
pub mod Crc
pub mod Psm
pub mod Info
pub mod Tool
mod Tests
use Prim.Native.Nat.{bit_and, bit_xor}
use frameworks_security.Base.{
  codes, ℕ, zero, suc, ◌*◌, ◌%◌, ◌==◌, Bool, true, false, Option, none, some, List, [], ◌∷◌, ◌++◌,
  take, length, put, if◌then◌else◌,
}

-- The inner loop of kvs_crc8, for the number of rounds left.
unfoldable pub crc_shift : ℕ → ℕ → ℕ
crc_shift zero crc = crc
crc_shift (suc i) crc =
    crc_shift i
      (if bit_and crc 0x80 == 0 then (crc * 2) % 256 else bit_xor ((crc * 2) % 256) 0x31 % 256)

-- kvs_crc8 from the value `crc` on.
unfoldable pub crc_loop : ℕ → List ℕ → ℕ
unfolding crc_shift
crc_loop crc [] = crc
crc_loop crc (c ∷ line) = crc_loop (crc_shift 8 (bit_xor crc c % 256)) line

-- kvs_crc8
unfoldable pub kvs_crc8 : List ℕ → ℕ
unfolding crc_loop
kvs_crc8 line = crc_loop 0 line

-- The files, and the file of each open descriptor.
pub record FileView : Type 0 where
  pub files : List ℕ → Option (List ℕ)
  pub fds : ℕ → Option (List ℕ)

-- The calls of the C library and of the property service, as parameters.
pub record Files : Type 1 where
  pub World : Type 0
  pub view : World → FileView
  -- access(path, F_OK) == 0
  pub access : List ℕ → World → Bool
  -- mkdir(path, mode) == 0
  pub mkdir : List ℕ → World → Bool × World
  -- open(path, O_CREAT | O_RDWR | O_TRUNC, 0666); `none` is a negative result, here and below
  pub open_truncate : List ℕ → World → Option ℕ × World
  pub write : ℕ → List ℕ → World → Option ℕ × World
  pub close : ℕ → World → World
  pub property_set : List ℕ → List ℕ → World → World

-- CONFIG_SC_SET_MODEL_*; `model` is a string of fewer than 32 bytes.
pub record Product : Type 0 where
  pub model : List ℕ
  pub psm_path : List ℕ
  pub market_name : List ℕ
  pub hardware : List ℕ
  pub name : List ℕ
  pub id : List ℕ
  pub app_id : List ℕ

-- The properties that psm_info_write sets, in order.
abbrev pub psm_properties : Product → List (List ℕ × List ℕ)
psm_properties p =
    (codes "market_name", p.market_name)
    ∷ (codes "model", p.hardware)
    ∷ (codes "persist.bt.name", p.name)
    ∷ (codes "persist.bt.pid", p.id)
    ∷ (codes "persist.miio.model", p.model)
    ∷ (codes "persist.sys.appid", p.app_id)
    ∷ []

-- snprintf(psm_path, 64, "%s/ot_config.psm_model", PSM_PATH)
unfoldable pub psm_file : Product → List ℕ
psm_file p = take 63 (p.psm_path ++ codes "/ot_config.psm_model")

module _ (f : Files) where
  open f use {World, access, mkdir, open_truncate, write, close, property_set}

  unfoldable pub set_properties : List (List ℕ × List ℕ) → World → World
  set_properties [] w = w
  set_properties ((key, value) ∷ rest) w = set_properties rest (property_set key value w)

  -- write(fd, bytes, length) == length
  unfoldable pub wrote : ℕ → Option ℕ → Bool
  wrote size none = false
  wrote size (some n) = n == size

  -- psm_info_write after the file was opened: the model, its checksum, and the properties. The
  -- descriptor is closed where a write fails, and only there.
  unfoldable pub write_psm : Product → Option ℕ × World → Bool × World
  unfolding wrote set_properties kvs_crc8
  write_psm p (none, w) = (false, w)
  write_psm p (some fd, w) =
      let (n, w1) = write fd p.model w in
      let (n', w2) = write fd (kvs_crc8 p.model ∷ []) w1 in
      if wrote (length p.model) n
      then (if wrote 1 n'
          then (true, set_properties (psm_properties p) w2)
          else (false, close fd w2))
      else (false, close fd w1)

  -- psm_info_write
  unfoldable pub psm_info_write : Product → World → Bool × World
  unfolding write_psm psm_file
  psm_info_write p w =
      let (made, w1) = mkdir p.psm_path w in
      if access p.psm_path w
      then write_psm p (open_truncate (psm_file p) w)
      else if made
      then write_psm p (open_truncate (psm_file p) w1)
      else (false, w1)
