-- ===== src/Permission/Record/Log/Disk.antt =====
-- Files in memory, one of them open for appending at a time, on which the calls of the record log of
-- permission/perm_manager.c do not fail.
use frameworks_security.Base.{ℕ, refl, true, false, Option, none, some, List, [], ◌++◌, put}
use frameworks_security.Permission.Types.{pos}
use frameworks_security.Permission.Store.{Path-discrete, Unqlite}
use frameworks_security.Permission.Record.Log.{LogStreams}
use frameworks_security.Permission.Record.Log.Rows.{LogLaws, text_of}

pub record Disk : Type 0 where
  pub files : List ℕ → Option (List ℕ)
  pub appending : Option (List ℕ)

-- The record log does not touch the database.
abbrev pub disk : Unqlite
disk = record {
  World = Disk;
  view = λ _. record { files = λ _. none; databases = λ _. none; cursors = λ _. none };
  mkdir = λ d. (true, d);
  open_db = λ _ _ d. (none, d);
  cursor_init = λ _ d. (none, d);
  first_entry = λ _ d. d;
  next_entry = λ _ d. d;
  valid_entry = λ _ _. false;
  cursor_key = λ _ _ _. [];
  cursor_data = λ _ _. [];
  cursor_release = λ _ _ d. d;
  close_db = λ _ d. d;
  store_fmt = λ _ _ _ d. (false, d);
  remove_file = λ _ d. (false, d);
  zalloc = λ _. true;
  uninitialised = λ _. pos 0;
}

abbrev write_to : Option (List ℕ) → List ℕ → Disk → Disk
write_to none bytes d = d
write_to (some path) bytes d = record d {
  files = put Path-discrete d.files path (some (text_of (d.files path) ++ bytes));
}

abbrev move : Option (List ℕ) → List ℕ → List ℕ → Disk → Disk
move none from to d = d
move (some bytes) from to d = record d {
  files = put Path-discrete (put Path-discrete d.files from none) to (some bytes);
}

abbrev read_from : Option (List ℕ) → Disk → Option (ℕ × List ℕ) × Disk
read_from none d = (none, d)
read_from (some bytes) d = (some (1, bytes), d)

abbrev pub streams : LogStreams disk
streams = record {
  fopen_append = λ path d. (
    some 0,
    record {
      files = put Path-discrete d.files path (some (text_of (d.files path)));
      appending = some path;
    },
  );
  fputs = λ _ bytes d. write_to d.appending bytes d;
  fclose = λ _ d. d;
  fopen_read = λ path d. read_from (d.files path) d;
  rename = λ from to d. move (d.files from) from to d;
  malloc_line = λ d. (some 2, d);
  malloc_log = λ d. (some 3, d);
  free = λ _ d. d;
}

abbrev pub disk_laws : LogLaws disk streams
disk_laws = record {
  files = λ d. d.files;
  streams = λ d _. d.appending;
  mkdir_law = λ w. (refl, refl);
  append_law = λ path w. (0, _, refl, refl, refl);
  fputs_law = λ f path old bytes w at holds. rw (at, holds) (refl, refl);
  fclose_law = λ f w. refl;
  rename_law = λ from to bytes w holds. rw holds refl;
  read_law = λ path bytes w holds. (1, w, rw holds refl, refl);
  line_law = λ w. (2, w, refl, refl);
  log_law = λ w. (3, w, refl, refl);
  free_law = λ p w. refl;
}
