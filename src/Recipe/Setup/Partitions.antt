-- ===== src/Recipe/Setup/Partitions.antt =====
-- The setup operations on partition tables: the cases `label` to `luks-format` of
-- `runSetupOperation` in core/recipe.go.
pub mod Secrets
pub mod Same
use albius.Base.{
  ℕ, ◌+◌, ◌&&◌, Option, none, some, List, [], Text, text, has_prefix, trim_prefix, length, ltb, ℤ,
  ◌==◌, list_eq, nat_eq, if◌then◌else◌,
}
use albius.Machine.{Platform, message, nil_dereference, Go, pure, fail, throw, ◌>>=◌, ◌>>◌}
use albius.Luks.{luks_name, luks_format, luks_open}
use albius.Disk.Types.{Partition, Disk}
use albius.Disk.Partition.{
  get_uuid_by_path, remove_partition, resize_partition, name_partition, set_partition_flag,
}
use albius.Disk.Label.{set_label, luks_set_label, wait_for_partition}
use albius.Disk.Filesystem.{make_fs, luks_make_fs}
use albius.Disk.Table.{get_partition, label_disk, new_partition}
use albius.Recipe.Values.{Json, string, arg, string_at, int_at, bool_at, field_at}

module _ ⦃P : Platform⦄ where
  -- A method call on the pointer that GetPartition returns, which may be nil
  unfoldable pub with_partition : Option Partition → (Partition → Go (Unit {0})) → Go (Unit {0})
  with_partition none use_it = throw nil_dereference
  with_partition (some part) use_it = use_it part

  -- LuksFormat, WaitUntilAvailable, GetUUID and LuksOpen, one after the other
  unfoldable pub encrypt : Partition → Text → Go (Unit {0})
  encrypt part password = do
    luks_format part.path password
    wait_for_partition part
    uuid ← get_uuid_by_path part.path
    luks_open part.path (luks_name uuid) password

  -- label
  unfoldable pub label : Disk → List Json → Go (Unit {0})
  label target args = do scheme ← string_at args 0; label_disk target scheme

  make_encrypted : Disk → Text → Text → ℤ → ℤ → Text → Go (Unit {0})
  make_encrypted target name fs start end password = do
    made ← new_partition target name [] start end
    encrypt made.1 password
    let formatted = record (made.1) { filesystem = trim_prefix fs (text "luks-") }
    luks_make_fs formatted
    luks_set_label formatted name

  make_plain : Disk → Text → Text → ℤ → ℤ → Go (Unit {0})
  make_plain target name fs start end = do
    new_partition target name (if fs == text "none" then [] else fs) start end
    pure tt

  make_either : Disk → Text → Text → ℤ → ℤ → List Json → Go (Unit {0})
  make_either target name fs start end args =
      if ltb 4 (length args) && has_prefix fs (text "luks-")
      then (do password ← string_at args 4; make_encrypted target name fs start end password)
      else make_plain target name fs start end

  -- mkpart. Without a password an encrypted type goes on as the name of a filesystem.
  unfoldable pub mkpart : Disk → List Json → Go (Unit {0})
  unfolding make_either make_encrypted make_plain
  mkpart target args = do
    name ← string_at args 0
    fs ← string_at args 1
    start ← int_at args 2
    end ← int_at args 3
    make_either target name fs start end args

  -- rm
  unfoldable pub rm : Disk → List Json → Go (Unit {0})
  rm target args = do
    n ← field_at args 0
    with_partition (get_partition n target.partitions) remove_partition

  -- resizepart
  unfoldable pub resizepart : Disk → List Json → Go (Unit {0})
  resizepart target args = do
    n ← field_at args 0
    end ← field_at args 1
    with_partition (get_partition n target.partitions) (λ part. resize_partition part end)

  -- `partNewName, ok := args[1].(string)`, with an error of its own for another type
  new_name : Json → Go Text
  new_name (string s) = pure s
  new_name _ = fail (message (text " is not a string"))

  -- namepart
  unfoldable pub namepart : Disk → List Json → Go (Unit {0})
  unfolding new_name
  namepart target args = do
    n ← field_at args 0
    value ← arg args 1
    name ← new_name value
    with_partition (get_partition n target.partitions) (λ part. name_partition part name)

  -- setlabel
  unfoldable pub setlabel : Disk → List Json → Go (Unit {0})
  unfolding new_name
  setlabel target args = do
    n ← field_at args 0
    value ← arg args 1
    name ← new_name value
    with_partition (get_partition n target.partitions) (λ part. set_label part name)

  -- setflag
  unfoldable pub setflag : Disk → List Json → Go (Unit {0})
  setflag target args = do
    n ← field_at args 0
    flag ← string_at args 1
    state ← bool_at args 2
    with_partition (get_partition n target.partitions) (λ part. set_partition_flag part flag state)

  -- The optional label: `if len(args) == k + 1`
  unfoldable pub label_if : ℕ → List Json → (Text → Go (Unit {0})) → Go (Unit {0})
  label_if k args set =
      if length args == k + 1 then (do name ← string_at args k; set name) else pure tt

  -- A filesystem on a partition that is there, and its label
  unfoldable pub format_partition : Partition → ℕ → List Json → Go (Unit {0})
  format_partition part k args = do make_fs part; label_if k args (set_label part)

  unfoldable pub luks_format_partition : Partition → Text → ℕ → List Json → Go (Unit {0})
  luks_format_partition part password k args = do
    encrypt part password
    luks_make_fs part
    label_if k args (luks_set_label part)

  -- format
  unfoldable pub format_existing : Disk → List Json → Go (Unit {0})
  format_existing target args = do
    n ← field_at args 0
    fs ← string_at args 1
    with_partition (get_partition n target.partitions)
        (λ part. format_partition (record part { filesystem = fs }) 2 args)

  -- luks-format
  unfoldable pub luks_format_existing : Disk → List Json → Go (Unit {0})
  luks_format_existing target args = do
    n ← field_at args 0
    fs ← string_at args 1
    password ← string_at args 2
    with_partition (get_partition n target.partitions)
        (λ part. luks_format_partition (record part { filesystem = fs }) password 3 args)
