-- ===== src/Permission/Record/Log.antt =====
-- The log file of the permission records in permission/perm_manager.c: save_perm_record and
-- load_perm_record, with the formats of snprintf and sscanf that they use written out. `none` is an
-- access outside an array or a loop out of fuel. A size_t is as wide as an int, which `%n` sets.
mod Fuel
mod Zeros
mod Lines
mod Rows
mod RoundTrip
mod Disk
mod Numbers
mod Tests
use frameworks_security.Base.{
  ℕ, zero, suc, ◌+◌, ◌-◌, ◌*◌, ◌/◌, ◌%◌, ◌^◌, ◌==◌, ◌&&◌, ◌||◌, ltb, leb, Bool, true, false, Option,
  none, some, List, [], ◌∷◌, ◌++◌, length, take, drop, replicate, c_string, strcpy, codes,
  if◌then◌else◌,
}
use frameworks_security.Device.Info.{fgets, before, newline}
use frameworks_security.Permission.Types.{
  PermError, noerror, generic_error, is_noerror, is_space, perm_name_len, pkg_name_len,
}
use frameworks_security.Decimal.{is_digit, decimal, digits}
use frameworks_security.Permission.Store.{Unqlite}
use frameworks_security.Permission.Access.{perm_path_prefix, check_permission_dir}
use frameworks_security.Permission.Record.{PermissionRecord, PermlogQueue}

abbrev pub dash : ℕ
dash = 45

-- `%lld` of a uint64_t, which has at most 20 digits.
unfoldable pub print_lld : ℕ → List ℕ
unfolding decimal
print_lld n = if ltb n (2 ^ 63) then decimal 20 n else dash ∷ decimal 20 (2 ^ 64 - n)

-- snprintf(message, log_len, "%lld-%.*s-%.*s\n", …): the text of one record.
unfoldable pub record_message : ℕ → PermissionRecord → List ℕ
unfolding print_lld c_string
record_message log_len r = take (log_len - 1) (
    print_lld r.recordtime
    ++ (dash
        ∷ (c_string (take pkg_name_len r.pkgname)
            ++ (dash ∷ (c_string (take perm_name_len r.permname) ++ newline ∷ [])))))

unfoldable pub skip_spaces : List ℕ → List ℕ
unfolding is_space
skip_spaces [] = []
skip_spaces (c ∷ cs) = let rest = skip_spaces cs in if is_space c then rest else c ∷ cs

unfoldable pub scan_digits : List ℕ → Option (ℕ × List ℕ)
unfolding digits is_digit
scan_digits [] = none
scan_digits (c ∷ cs) = if is_digit c then some (digits 0 (c ∷ cs)) else none

-- A number of more than 64 bits is read as the largest one, also behind a minus.
unfoldable pub saturate : ℕ → ℕ → ℕ
saturate n value = if ltb n (2 ^ 64) then value else 2 ^ 64 - 1

unfoldable pub scan_positive : Option (ℕ × List ℕ) → Option (ℕ × List ℕ)
unfolding saturate
scan_positive none = none
scan_positive (some (n, rest)) = some (saturate n n, rest)

unfoldable pub scan_negative : Option (ℕ × List ℕ) → Option (ℕ × List ℕ)
unfolding saturate
scan_negative none = none
scan_negative (some (n, rest)) = some (saturate n ((2 ^ 64 - n) % 2 ^ 64), rest)

unfoldable pub scan_signed : List ℕ → Option (ℕ × List ℕ)
unfolding scan_digits scan_negative scan_positive
scan_signed [] = none
scan_signed (c ∷ cs) =
    if c == dash
    then scan_negative (scan_digits cs)
    else scan_positive (scan_digits (if c == 43 then cs else c ∷ cs))

-- `%llu` into a uint64_t, and the text behind it.
unfoldable pub scan_llu : List ℕ → Option (ℕ × List ℕ)
unfolding skip_spaces scan_signed
scan_llu text = scan_signed (skip_spaces text)

-- log->record.permname[strlen(log->record.permname) - 1] = '\0'
unfoldable pub cut_last : List ℕ → Option (List ℕ)
unfolding c_string
cut_last name =
    let n = length (c_string name) in
    if n == 0 then none else some (take (n - 1) name ++ 0 ∷ drop n name)

unfoldable pub cut_some : Option (List ℕ) → Option (List ℕ)
unfolding cut_last
cut_some none = none
cut_some (some permname) = cut_last permname

-- The name of the permission, from `line + rest`.
unfoldable pub read_permname : List ℕ → Option (List ℕ)
unfolding cut_some strcpy
read_permname [] = none
read_permname (_ ∷ name) = cut_some (strcpy (replicate perm_name_len 0) name)

-- The record of the two names; a write past the array of either is `none`.
unfoldable pub with_names : ℕ → Option (List ℕ) → Option (List ℕ) → Option (Option PermissionRecord)
with_names recordtime none permname = none
with_names recordtime (some pkgname) none = none
with_names recordtime (some pkgname) (some permname) =
    some (some (record { pkgname = pkgname; permname = permname; recordtime = recordtime }))

-- The names behind the time and its '-': `%[^-]` into the array of the package's name, which the
-- source does not bound, and the name of the permission. `some none` where sscanf does not give 2.
unfoldable pub read_names : ℕ → List ℕ → Option (Option PermissionRecord)
unfolding before read_permname strcpy with_names
read_names recordtime [] = some none
read_names recordtime (c ∷ cs) =
    let name = before dash (c ∷ cs) in
    if c == dash
    then some none
    else with_names recordtime (strcpy (replicate pkg_name_len 0) name)
        (read_permname (drop (length name) (c ∷ cs)))

unfoldable pub read_record : Option (ℕ × List ℕ) → Option (Option PermissionRecord)
unfolding read_names
read_record none = some none
read_record (some (_, [])) = some none
read_record (some (recordtime, (c ∷ rest))) =
    if c == dash then read_names recordtime rest else some none

-- One line of the file: `some none` where the loop ends at it.
unfoldable pub read_line : List ℕ → Option (Option PermissionRecord)
unfolding read_record scan_llu c_string
read_line line = read_record (scan_llu (c_string line))

-- The streams and the memory of the C library, as parameters.
pub record LogStreams (u : Unqlite) : Type 0 where
  -- fopen(path, "a"), fputs, and fclose
  pub fopen_append : List ℕ → u.World → Option ℕ × u.World
  pub fputs : ℕ → List ℕ → u.World → u.World
  pub fclose : ℕ → u.World → u.World
  -- fopen(path, "r"); the stream, and what it reads
  pub fopen_read : List ℕ → u.World → Option (ℕ × List ℕ) × u.World
  -- rename(from, to), whose result the source ignores
  pub rename : List ℕ → List ℕ → u.World → u.World
  -- malloc of a line or of a struct permlog, and free
  pub malloc_line : u.World → Option ℕ × u.World
  pub malloc_log : u.World → Option ℕ × u.World
  pub free : ℕ → u.World → u.World

-- snprintf(path, 64, "%s%s", PERM_PATH_PREFIX, name)
unfoldable pub log_path : List ℕ → List ℕ
log_path name = take 63 (perm_path_prefix ++ name)

-- For CONFIG_PERM_RECORD_LOG_LEN and CONFIG_PERM_RECORD_FILE.
module _ (u : Unqlite) (s : LogStreams u) (log_len : ℕ) (record_file : List ℕ) where
  open u use {World}
  open s use {fopen_append, fputs, fclose, fopen_read, rename, malloc_line, malloc_log, free}

  -- The loop of save_perm_record.
  unfoldable pub write_records : ℕ → List PermissionRecord → World → World
  unfolding record_message
  write_records file [] w = w
  write_records file (r ∷ rest) w =
      write_records file rest (fputs file (record_message log_len r) w)

  unfoldable pub saved : List PermissionRecord → Option ℕ × World → PermError × World
  unfolding write_records log_path
  saved records (none, w) = (generic_error, w)
  saved records (some file, w) = (
    noerror,
    rename (log_path (codes "tmp.log")) (log_path record_file)
        (fclose file (write_records file records w)),
  )

  -- save_perm_record
  unfoldable pub save_perm_record : PermlogQueue → World → PermError × World
  unfolding saved log_path
  save_perm_record q w = saved q.queue (fopen_append (log_path (codes "tmp.log")) w)

  -- What the loop does with a line, once malloc has answered; `more` is the rest of the loop.
  unfoldable pub next_record :
      Option ℕ
      → Option (Option PermissionRecord)
      → (PermlogQueue → Option (PermError × PermlogQueue × World))
      → PermlogQueue
      → World
      → Option (PermError × PermlogQueue × World)
  next_record none line more q w = some (generic_error, q, w)
  next_record (some p) none more q w = none
  next_record (some p) (some none) more q w = some (noerror, q, free p w)
  next_record (some p) (some (some r)) more q w =
      more (record { queue = q.queue ++ r ∷ []; logn = q.logn + 1 })

  -- The loop of load_perm_record, on fuel.
  unfoldable pub load_loop :
      ℕ → List ℕ → PermlogQueue → World → Option (PermError × PermlogQueue × World)
  unfolding fgets read_line next_record
  load_loop zero bytes q w = none
  load_loop (suc k) [] q w = some (noerror, q, w)
  load_loop (suc k) (b ∷ bs) q w =
      let (line, rest) = fgets (log_len - 1) (b ∷ bs) in
      let (log, w1) = malloc_log w in
      next_record log (read_line line) (λ q'. load_loop k rest q' w1) q w1

  -- `exit:` of load_perm_record, where the line and the file are given back.
  unfoldable pub end_load :
      ℕ → ℕ → Option (PermError × PermlogQueue × World) → Option (PermError × PermlogQueue × World)
  end_load line file none = none
  end_load line file (some (ret, q, w)) = some (ret, q, fclose file (free line w))

  unfoldable pub load_file :
      ℕ → List ℕ → PermlogQueue → Option ℕ × World → Option (PermError × PermlogQueue × World)
  unfolding load_loop end_load
  load_file file bytes q (none, w) = some (generic_error, q, fclose file w)
  load_file file bytes q (some line, w) =
      end_load line file (load_loop (suc (length bytes)) bytes q w)

  unfoldable pub load_opened :
      PermlogQueue → Option (ℕ × List ℕ) × World → Option (PermError × PermlogQueue × World)
  unfolding load_file
  load_opened q (none, w) = some (generic_error, q, w)
  load_opened q (some (file, bytes), w) = load_file file bytes q (malloc_line w)

  -- load_perm_record
  unfoldable pub load_perm_record : PermlogQueue → World → Option (PermError × PermlogQueue × World)
  unfolding load_opened log_path
  load_perm_record q w =
      let (res, w1) = check_permission_dir u w in
      if is_noerror res
      then if q.logn == 0
        then load_opened q (fopen_read (log_path record_file) w1)
        else some (noerror, q, w1)
      else some (generic_error, q, w1)
