-- ===== src/Permission/Query/Count.antt =====
-- The count of query_permission of permission/perm_manager.c against the entries in the file.
use frameworks_security.Base.{ℕ, ◌+◌, ◌≡◌, Option, some, List, length}
use frameworks_security.Permission.Types.{PermError, noerror}
use frameworks_security.Permission.Store.{Unqlite, Entry, CursorLaws}

module _ (u : Unqlite) (laws : CursorLaws u) where
  open u use {World, view}

  abbrev Counts : ℕ → List Entry → PermError → ℕ → World → Type 0
  Counts n rest r m w = (r ≡ noerror) × (m ≡ n + length rest)

  abbrev pub CountsFile : Option (List Entry) → PermError → ℕ → World → Type 0
  CountsFile file r n w' =
      (entries : List Entry) × (file ≡ some entries) × (r ≡ noerror) × (n ≡ length entries)
