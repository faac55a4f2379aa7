-- ===== src/Device/Info/Memory.antt =====
-- A device with one file, whose calls do not fail.
use frameworks_security.Base.{ℕ, refl, true, some, none, List, [], ◌++◌, length, codes}
use frameworks_security.Device.{Files}
use frameworks_security.Device.Info.{Streams}
use frameworks_security.Device.Info.Session.{InfoLaws}

-- The state is the text of the file.
abbrev pub one_file : Files
one_file = record {
  World = List ℕ;
  view = λ text. record { files = λ _. some text; fds = λ _. none };
  access = λ _ _. true;
  mkdir = λ _ text. (true, text);
  open_truncate = λ _ text. (some 0, []);
  write = λ _ bytes text. (some (length bytes), text ++ bytes);
  close = λ _ text. text;
  property_set = λ _ _ text. text;
}

abbrev pub streams : Streams one_file
streams = record {
  fopen_read = λ _ text. (some (1, text), text);
  fopen_append = λ _ text. (some 2, text);
  fprintf = λ _ line text. (true, text ++ line);
  fclose = λ _ text. text;
  open_write = λ _ text. (some 3, text);
  ftruncate = λ _ text. (true, []);
}

abbrev pub streams_laws : InfoLaws one_file streams (codes "/data/etc/info")
streams_laws = record {
  text = λ text. some text;
  access_law = λ bytes w holds. refl;
  read_law = λ bytes w holds. (1, w, cc holds, holds);
  append_law = λ bytes line p w w1 holds opened wrote. cc (holds, opened);
  close_law = λ h w. refl;
}
