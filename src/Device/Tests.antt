-- ===== src/Device/Tests.antt =====
-- psm_info_write of tools/set_model/set_model_api.c on files in memory, for a model of two letters.
use frameworks_security.Base.{
  codes, ℕ, ◌≡◌, refl, arith, Option, none, some, List, [], ◌∷◌, ◌++◌, take, take_all, length, put,
  ℕ_discrete, true,
}
use frameworks_security.Device.{FileView, Files, Product, psm_file, kvs_crc8, psm_info_write}
use frameworks_security.Device.Psm.{path-discrete, FileLaws, HoldsOpen, psm_info_write_outcome}

abbrev write_path : FileView → List ℕ → List ℕ → Option (List ℕ) → Option ℕ × FileView
write_path v path bytes none = (none, v)
write_path v path bytes (some old) =
    (some (length bytes), record v { files = put path-discrete v.files path (some (old ++ bytes)) })

abbrev write_fd : FileView → List ℕ → Option (List ℕ) → Option ℕ × FileView
write_fd v bytes none = (none, v)
write_fd v bytes (some path) = write_path v path bytes (v.files path)

abbrev memory : Files
memory = record {
  World = FileView;
  view = λ v. v;
  access = λ _ _. true;
  mkdir = λ _ v. (true, v);
  open_truncate = λ path v. (
    some 3,
    record {
      files = put path-discrete v.files path (some []);
      fds = put ℕ_discrete v.fds 3 (some path);
    },
  );
  write = λ fd bytes v. write_fd v bytes (v.fds fd);
  close = λ fd v. record v { fds = put ℕ_discrete v.fds fd none };
  property_set = λ _ _ v. v;
}

write_fd_lem :
    (n : ℕ) (path bytes old : List ℕ) (v : FileView)
    → v.files path ≡ some old
    → (write_path v path bytes (v.files path)).0 ≡ some n
    → (write_path v path bytes (v.files path)).1
      ≡ record v { files = put path-discrete v.files path (some (old ++ take n bytes)) }
write_fd_lem n path bytes old v at_path h =
    let whole : some (length bytes) ≡ some n = rw at_path at h in
    let size : n ≡ length bytes = cc whole in
    rw (at_path, size, take_all (length bytes) bytes (omega arith)) refl

memory_laws : FileLaws memory
memory_laws = record {
  open_law = λ path v. refl;
  write_law = λ fd n path bytes old v at_fd at_path h.
      rw at_fd (write_fd_lem n path bytes old v at_path (rw at_fd at h));
  property_law = λ key value v. refl;
}

abbrev watch : Product
watch = record {
  model = 0x77 ∷ 0x31 ∷ [];
  psm_path = codes "/data";
  market_name = [];
  hardware = [];
  name = [];
  id = [];
  app_id = [];
}

abbrev blank_files : FileView
blank_files = record { files = λ _. none; fds = λ _. none }

watch_written : (psm_info_write memory watch blank_files).0 ≡ true
unfolding psm_info_write put path-discrete ℕ_discrete
watch_written = refl

psm_info_write_outcome_example :
    HoldsOpen memory memory_laws
      (psm_file watch)
      (0x77 ∷ 0x31 ∷ kvs_crc8 (0x77 ∷ 0x31 ∷ []) ∷ [])
      (psm_info_write memory watch blank_files).1
    × (kvs_crc8 (0x77 ∷ 0x31 ∷ kvs_crc8 (0x77 ∷ 0x31 ∷ []) ∷ []) ≡ 0)
psm_info_write_outcome_example =
    psm_info_write_outcome memory memory_laws watch blank_files watch_written
