-- ===== src/Tests/Scripted.antt =====
-- A machine that answers each command from a table.
use albius.Base.{
  Option, none, List, [], ◌∷◌, Text, text, ℤ, pos, atoi, format_int, ◌==◌, list_eq, nat_eq,
  if◌then◌else◌,
}
use albius.Machine.{
  Platform, Process, shell, chroot, Completed, success, exited, present, not_read, names,
}
use albius.Disk.Types.{Disk}

-- A command and what it prints; a command that is not in the table fails with status 1.
abbrev pub Answers : Type 0
Answers = List (Text × Text)

abbrev pub answer : Answers → Text → Completed
answer [] command = record { stdout = []; stderr = text "unknown"; exit = exited (pos 1) }
answer ((c, out) ∷ table) command =
    if c == command
    then record { stdout = out; stderr = []; exit = success }
    else answer table command

abbrev pub respond : Answers → Process → Completed
respond table (shell env command) = answer table command
respond table (chroot root command) = answer table command

-- The numbers of this machine are integers.
abbrev pub scripted : Answers → (Text → Option Disk) → Platform
scripted table decode = record {
  State = Unit {0};
  F64 = ℤ;
  patience = 3;
  exec = λ p s. (respond table p, s);
  stat = λ path s. (present, s);
  read_file = λ path s. (not_read path, s);
  write_file = λ path bytes s. (none, s);
  create_file = λ path s. (none, s);
  append_file = λ path bytes s. (none, s);
  remove_file = λ path s. (none, s);
  make_dir = λ path s. (none, s);
  list_dir = λ path s. (names [], s);
  remove_all = λ path s. (none, s);
  parse_float = atoi;
  int_of_f64 = λ f. f;
  format_f = format_int;
  format_2f = format_int;
  decode_disk = decode;
  range_order = λ entries s. (entries, s);
  arch = text "amd64";
}

-- A machine on which every command fails
abbrev pub silent : Platform
silent = scripted [] (λ t. none)

-- A machine on which every command succeeds and prints 5
abbrev pub agreeable : Option Disk → Platform
agreeable disk = record silent {
  exec = λ p s. (record { stdout = text "5"; stderr = []; exit = success }, s);
  decode_disk = λ out. disk;
}
