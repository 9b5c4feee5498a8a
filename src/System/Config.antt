-- ===== src/System/Config.antt =====
-- GrubConfig of core/system/grub.go: /etc/default/grub as a map from names to values.
pub mod Entries
pub mod Panics
pub mod Parsed
pub mod Rewrite
pub mod RoundTrip
use albius.Base.{
  Bool, true, false, Option, none, some, List, [], ◌∷◌, ◌++◌, Text, text, split, split_2, join_path,
  ◌==◌, list_eq, nat_eq, if◌then◌else◌,
}
use albius.Machine.{
  Platform, Stat, present, absent, unreadable, wrap, index_out_of_range, Outcome, ok, panic, Go,
  pure, ◌>>=◌, handling, lift, observe, stat_path,
}
use albius.Machine.Files.{read_file, write_file}
use albius.Machine.Results.{◌>>=◌ as bind_outcome}

-- An entry for each key
abbrev pub GrubConfig : Type 0
GrubConfig = List (Text × Text)

unfoldable pub lookup : Text → GrubConfig → Option Text
lookup key [] = none
lookup key ((k, v) ∷ config) = if k == key then some v else lookup key config

-- config[key] = value
unfoldable pub set_key : Text → Text → GrubConfig → GrubConfig
set_key key value [] = (key, value) ∷ []
set_key key value ((k, v) ∷ config) =
    let rest = set_key key value config in if k == key then (key, value) ∷ config else (k, v) ∷ rest

-- `kv := strings.SplitN(line, "=", 2); config[kv[0]] = kv[1]`, which panics where there is no `=`
unfoldable pub set_pair : Text × Option Text → GrubConfig → Outcome GrubConfig
set_pair (key, none) config = panic index_out_of_range
set_pair (key, some value) config = ok (set_key key value config)

-- A line that is empty or begins with `#`
unfoldable pub is_skipped : Text → Bool
is_skipped [] = true
is_skipped (c ∷ line) = c == b'#'

-- The loop over the lines of the file
unfoldable pub parse_lines : List Text → GrubConfig → Outcome GrubConfig
parse_lines [] config = ok config
parse_lines (line ∷ lines) config = elim (is_skipped line) [
  | true ↦ parse_lines lines config
  | false ↦ bind_outcome (set_pair (split_2 b'=' line) config) (parse_lines lines)
]

-- The lines that WriteGrubConfig writes
unfoldable pub print_entries : List (Text × Text) → Text
print_entries [] = []
print_entries ((k, v) ∷ entries) = k ++ (b'=' ∷ (v ++ (b'\n' ∷ print_entries entries)))

-- The path of the file under the root
unfoldable pub grub_file : Text → Text
grub_file root = join_path (root ∷ text "/etc/default/grub" ∷ [])

module _ ⦃P : Platform⦄ where
  unfoldable pub read_config : Text → Go GrubConfig
  read_config path = do
    content ← handling (wrap (text "failed to read GRUB config file: ")) (read_file path)
    lift (parse_lines (split b'\n' content) [])

  unfoldable pub read_config_at : Text → Stat → Go GrubConfig
  unfolding read_config
  read_config_at path absent = pure []
  read_config_at path present = read_config path
  read_config_at path (unreadable why) = read_config path

  -- GetGrubConfig
  unfoldable pub get_grub_config : Text → Go GrubConfig
  unfolding read_config_at
  get_grub_config root = do
    found ← stat_path (grub_file root)
    read_config_at (grub_file root) found

  -- WriteGrubConfig
  unfoldable pub write_grub_config : Text → GrubConfig → Go (Unit {0})
  write_grub_config root config = do
    entries ← observe (P.range_order config)
    handling (wrap (text "failed to write GRUB config file: "))
        (write_file (grub_file root) (print_entries entries))
