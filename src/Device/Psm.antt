-- ===== src/Device/Psm.antt =====
-- The file that psm_info_write of tools/set_model/set_model_api.c leaves.
use frameworks_security.Base.{
  ℕ, ◌≡◌, refl, ◌∙◌, true, Option, none, some, List, [], ◌∷◌, ◌++◌, take, take_all, length, put,
  put_self, ℕ_discrete, Bool-cases, inl, inr, arith,
}
use frameworks_security.Device.{
  Files, Product, psm_file, kvs_crc8, wrote, set_properties, psm_properties, write_psm,
  psm_info_write,
}
use frameworks_security.Device.Crc.{kvs_crc8-append}

unfoldable pub path-discrete : Discrete (List ℕ)
path-discrete = hlevel (ℕ_discrete)

module _ (f : Files) where
  open f use {World, view}

  abbrev pub OpensFile : List ℕ → World → Option ℕ × World → Type 0
  OpensFile path w (none, w') = Unit
  OpensFile path w (some fd, w') = view w' ≡ record {
    files = put path-discrete (view w).files path (some []);
    fds = put ℕ_discrete (view w).fds fd (some path);
  }

  -- The documented behaviour of open with O_TRUNC and of write; a property is no file.
  pub record FileLaws : Type 0 where
    pub open_law : (path : List ℕ) (w : World) → OpensFile path w (f.open_truncate path w)
    pub write_law :
        (fd n : ℕ) (path bytes old : List ℕ) (w : World)
        → (view w).fds fd ≡ some path
        → (view w).files path ≡ some old
        → (f.write fd bytes w).0 ≡ some n
        → view (f.write fd bytes w).1 ≡ record (view w) {
          files = put path-discrete (view w).files path (some (old ++ take n bytes));
        }
    pub property_law : (key value : List ℕ) (w : World) → view (f.property_set key value w) ≡ view w

module _ (f : Files) (laws : FileLaws f) where
  open f use {World, view}

  set_properties-view :
      (rest : List (List ℕ × List ℕ)) (w : World) → view (set_properties f rest w) ≡ view w
  unfolding set_properties
  set_properties-view [] w = refl
  set_properties-view ((key, value) ∷ rest) w =
      set_properties-view rest (f.property_set key value w) ∙ laws.property_law key value w

  wrote-eq : (size : ℕ) (n : Option ℕ) → wrote f size n ≡ true → n ≡ some size
  unfolding wrote
  wrote-eq size none h = cc
  wrote-eq size (some n) h = ground arith

  -- The file holds the bytes, and a descriptor of it is open.
  abbrev pub HoldsOpen : List ℕ → List ℕ → World → Type 0
  HoldsOpen path bytes w =
      ((view w).files path ≡ some bytes) × (fd : ℕ) × ((view w).fds fd ≡ some path)

  write-whole :
      (fd : ℕ) (path bytes old : List ℕ) (w : World)
      → (view w).fds fd ≡ some path
      → (view w).files path ≡ some old
      → wrote f (length bytes) (f.write fd bytes w).0 ≡ true
      → ((view (f.write fd bytes w).1).files path ≡ some (old ++ bytes))
        × ((view (f.write fd bytes w).1).fds fd ≡ some path)
  write-whole fd path bytes old w at_fd at_path done =
      let e =
        laws.write_law fd (length bytes) path bytes old w at_fd at_path
          (wrote-eq (length bytes) _ done) in
      (
        rw (e, take_all (length bytes) bytes (omega arith)) (put_self path-discrete _ path _),
        rw e at_fd,
      )

  write_psm-HoldsOpen :
      (p : Product) (path : List ℕ) (w : World) (r : Option ℕ × World)
      → OpensFile f path w r
      → (write_psm f p r).0 ≡ true
      → HoldsOpen path (p.model ++ kvs_crc8 p.model ∷ []) (write_psm f p r).1
  unfolding write_psm
  write_psm-HoldsOpen p path w (none, w') e h = cc
  write_psm-HoldsOpen p path w (some fd, w') e h =
      let r = f.write fd p.model w' in
      elim (Bool-cases (wrote f (length p.model) r.0)) [
        | inr short ↦ cc (rw short at h)
        | inl whole ↦ elim (Bool-cases (wrote f 1 (f.write fd (kvs_crc8 p.model ∷ []) r.1).0)) [
          | inr short ↦ cc (rw (whole, short) at h)
          | inl last ↦
              let (a, b) =
                write-whole fd path p.model [] w' (rw e (put_self ℕ_discrete _ fd _))
                  (rw e (put_self path-discrete _ path _)) whole in
              let (c, d) = write-whole fd path (kvs_crc8 p.model ∷ []) p.model r.1 b a last in
              rw (whole, last, set_properties-view (psm_properties p)) (c, fd, d)
        ]
      ]

  -- If psm_info_write succeeds, the file of the model holds exactly the model and its checksum,
  -- which together have the checksum 0, and a descriptor of the file is still open.
  pub psm_info_write_outcome :
      (p : Product) (w : World)
      → (psm_info_write f p w).0 ≡ true
      → HoldsOpen (psm_file p) (p.model ++ kvs_crc8 p.model ∷ []) (psm_info_write f p w).1
        × (kvs_crc8 (p.model ++ kvs_crc8 p.model ∷ []) ≡ 0)
  unfolding psm_info_write
  psm_info_write_outcome p w h = elim (Bool-cases (f.access p.psm_path w)) [
    | inl there ↦ (
      rw there (
          write_psm-HoldsOpen p (psm_file p) w (f.open_truncate (psm_file p) w)
            (laws.open_law (psm_file p) w) (rw there at h)),
      kvs_crc8-append p.model,
    )
    | inr absent ↦ elim (Bool-cases (f.mkdir p.psm_path w).0) [
      | inl made ↦ (
        rw (absent, made)
            (write_psm-HoldsOpen p (psm_file p) (f.mkdir p.psm_path w).1
              (f.open_truncate (psm_file p) (f.mkdir p.psm_path w).1)
              (laws.open_law (psm_file p) (f.mkdir p.psm_path w).1) (rw (absent, made) at h)),
        kvs_crc8-append p.model,
      )
      | inr failed ↦ cc (rw (absent, failed) at h)
    ]
  ]
