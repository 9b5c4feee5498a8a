-- ===== src/Tests/Configs.antt =====
-- The configuration of GRUB on a machine with one file
use albius.System.Config.Rewrite.{write_grub_config-get_grub_config}
use mathlib.Core.List.{Permᴰ}
use albius.Base.{
  ◌≡◌, All, ℤ, Option, atoi, format_int, reverse, split, split_2, cons_head, join_path, has_prefix,
  join, refl, ap, none, some, [], ◌∷◌, Text, text, list_beq, arith,
}
use albius.Machine.{
  Platform, World, success, absent, names, wrote, read_path, write_path, fail_on, stat_path, ok,
  present, contents, not_read, pure, lift, handling, ◌>>=◌, perform, observe,
}
use albius.Machine.Files.{read_file, write_file}
use albius.System.Config.{
  GrubConfig, lookup, set_key, set_pair, is_skipped, parse_lines, print_entries, grub_file,
  read_config, read_config_at, get_grub_config, write_grub_config,
}
use albius.System.Config.Entries.{IsUnique, IsEntry}
use albius.System.Config.RoundTrip.{get_grub_config-write_grub_config}
use albius.System.Config.Parsed.{get_grub_config-IsConfig}

-- A machine with one file that can be written
abbrev one_file : Platform
one_file = record {
  State = Option Text;
  F64 = ℤ;
  patience = 3;
  exec = λ p s. (record { stdout = []; stderr = []; exit = success }, s);
  stat = λ path s. (elim s [ none ↦ absent | some bytes ↦ present ], s);
  read_file = λ path s. (elim s [ none ↦ not_read path | some bytes ↦ contents bytes ], s);
  write_file = λ path bytes s. (none, some bytes);
  create_file = λ path s. (none, some []);
  append_file = λ path bytes s. (none, s);
  remove_file = λ path s. (none, none);
  make_dir = λ path s. (none, s);
  list_dir = λ path s. (names [], s);
  remove_all = λ path s. (none, none);
  parse_float = atoi;
  int_of_f64 = λ f. f;
  format_f = format_int;
  format_2f = format_int;
  decode_disk = λ out. none;
  range_order = λ entries s. (reverse entries, s);
  arch = text "amd64";
}

abbrev two_keys : GrubConfig
two_keys = (b'a' ∷ [], b'1' ∷ []) ∷ (b'b' ∷ [], b'=' ∷ []) ∷ []

abbrev empty : World ⦃P = one_file⦄
empty = record { state = none; log = [] }

abbrev written : World ⦃P = one_file⦄
written = record {
  state = some (text "b==\na=1\n");
  log = wrote (text "/etc/default/grub") (text "b==\na=1\n") ∷ [];
}

writes_two : write_grub_config ⦃P = one_file⦄ [] two_keys empty ≡ (ok tt, written)
unfolding write_grub_config grub_file print_entries write_file write_path fail_on handling observe
    perform ◌>>=◌ pure text join_path list_beq has_prefix join split
writes_two = refl

reads_two :
    get_grub_config ⦃P = one_file⦄ [] written
    ≡ (ok ((b'b' ∷ [], b'=' ∷ []) ∷ (b'a' ∷ [], b'1' ∷ []) ∷ []), written)
unfolding get_grub_config read_config_at read_config read_file read_path lift parse_lines set_pair
    set_key is_skipped split split_2 cons_head handling observe ◌>>=◌ pure text list_beq stat_path
reads_two = refl

two_keys-IsUnique : IsUnique two_keys
unfolding lookup list_beq
two_keys-IsUnique = (refl, (refl, tt))

two_keys-order : Permᴰ two_keys (reverse two_keys)
two_keys-order = Permᴰ.swap refl refl

one_file-keeps :
    (bytes : Text) (s s' : Option Text)
    → one_file.write_file (grub_file []) bytes s ≡ (none, s')
    → ((one_file.stat (grub_file []) s').0 ≡ present)
      × ((one_file.read_file (grub_file []) (one_file.stat (grub_file []) s').1).0 ≡ contents bytes)
one_file-keeps bytes s s' e = rw (← ap (λ p. p.1) e) (refl, refl)

two_keys-IsEntry : All IsEntry two_keys
unfolding is_skipped
two_keys-IsEntry = (
  (
    refl,
    ((λ e. absurd (omega arith)), tt),
    ((λ e. absurd (omega arith)), tt),
    ((λ e. absurd (omega arith)), tt),
  ),
  (
    (
      refl,
      ((λ e. absurd (omega arith)), tt),
      ((λ e. absurd (omega arith)), tt),
      ((λ e. absurd (omega arith)), tt),
    ),
    tt,
  ),
)

get_grub_config-write_grub_config_example :
    (found : GrubConfig) × (w' : World ⦃P = one_file⦄) × (get_grub_config ⦃P = one_file⦄ [] written
      ≡ (ok found, w'))
    × ((key : Text) → lookup key found ≡ lookup key two_keys)
get_grub_config-write_grub_config_example =
    get_grub_config-write_grub_config ⦃P = one_file⦄ [] two_keys empty written two_keys-IsUnique
      two_keys-IsEntry two_keys-order one_file-keeps writes_two

get_grub_config-IsConfig_example :
    IsUnique ((b'b' ∷ [], b'=' ∷ []) ∷ (b'a' ∷ [], b'1' ∷ []) ∷ [])
    × All IsEntry ((b'b' ∷ [], b'=' ∷ []) ∷ (b'a' ∷ [], b'1' ∷ []) ∷ [])
get_grub_config-IsConfig_example =
    get_grub_config-IsConfig ⦃P = one_file⦄ [] written written _ reads_two

abbrev two_read : GrubConfig
two_read = (b'b' ∷ [], b'=' ∷ []) ∷ (b'a' ∷ [], b'1' ∷ []) ∷ []

abbrev rewritten : World ⦃P = one_file⦄
rewritten = record {
  state = some (text "a=1\nb==\n");
  log =
      wrote (text "/etc/default/grub") (text "b==\na=1\n")
      ∷ wrote (text "/etc/default/grub") (text "a=1\nb==\n")
      ∷ [];
}

writes_back : write_grub_config ⦃P = one_file⦄ [] two_read written ≡ (ok tt, rewritten)
unfolding write_grub_config grub_file print_entries write_file write_path fail_on handling observe
    perform ◌>>=◌ pure text join_path list_beq has_prefix join split
writes_back = refl

write_grub_config-get_grub_config_example :
    (found : GrubConfig) × (w' : World ⦃P = one_file⦄) × (get_grub_config ⦃P = one_file⦄ []
        rewritten
      ≡ (ok found, w'))
    × ((key : Text) → lookup key found ≡ lookup key two_read)
write_grub_config-get_grub_config_example =
    write_grub_config-get_grub_config ⦃P = one_file⦄ [] two_read written written rewritten reads_two
      (Permᴰ.swap refl refl) one_file-keeps writes_back
