-- ===== src/Recipe/Setup/Volumes.antt =====
-- The setup operations on LVM volumes: the cases `pvcreate` to `lvm-luks-format` of
-- `runSetupOperation` in core/recipe.go.
pub mod Secrets
use albius.Base.{none, some, List, [], ◌∷◌, Text, text, format, map, length, ltb, if◌then◌else◌}
use albius.Machine.{Platform, Go, pure, ◌>>=◌, ◌>>◌}
use albius.Disk.Types.{Partition, partition_at}
use albius.Disk.Label.{wait_for_partition}
use albius.Lvm.Types.{Lv, string}
use albius.Lvm.Commands
use albius.Recipe.Values.{
  Json, Items, no_items, item, arg, as_string, as_array, as_any, string_at, float_at, strings_at,
}
use albius.Recipe.Setup.Partitions.{format_partition, luks_format_partition}

module _ ⦃P : Platform⦄ where
  -- pvcreate
  unfoldable pub pvcreate : List Json → Go (Unit {0})
  pvcreate args = do
    path ← string_at args 0
    wait_for_partition (partition_at path [])
    Commands.pvcreate path

  resize_with : Text → List Json → Go (Unit {0})
  resize_with path args =
      if ltb 1 (length args)
      then (do size ← float_at args 1; Commands.pvresize (string path) (some size))
      else Commands.pvresize (string path) none

  -- pvresize
  unfoldable pub pvresize : List Json → Go (Unit {0})
  unfolding resize_with
  pvresize args = do path ← string_at args 0; resize_with path args

  -- pvremove
  unfoldable pub pvremove : List Json → Go (Unit {0})
  pvremove args = do path ← string_at args 0; Commands.pvremove (string path)

  -- The loop over the members of a new group, each of which is waited for
  unfoldable pub wait_for_members : Items → Go (List Text)
  wait_for_members no_items = pure []
  wait_for_members (item value items) = do
    path ← as_string value
    wait_for_partition (partition_at path [])
    rest ← wait_for_members items
    pure (path ∷ rest)

  members_if : List Json → Go (List Text)
  members_if args =
      if ltb 1 (length args)
      then (do value ← arg args 1; items ← as_array value; wait_for_members items)
      else pure []

  -- vgcreate
  unfoldable pub vgcreate : List Json → Go (Unit {0})
  unfolding members_if
  vgcreate args = do
    name ← string_at args 0
    members ← members_if args
    Commands.vgcreate name (map string members)

  -- vgrename
  unfoldable pub vgrename : List Json → Go (Unit {0})
  vgrename args = do
    old_name ← string_at args 0
    new_name ← string_at args 1
    Commands.vgrename old_name new_name
    pure tt

  -- vgextend and vgreduce
  unfoldable pub vgextend : List Json → Go (Unit {0})
  vgextend args = do
    name ← string_at args 0
    members ← strings_at args 1
    Commands.vgextend (string name) (map string members)

  unfoldable pub vgreduce : List Json → Go (Unit {0})
  vgreduce args = do
    name ← string_at args 0
    members ← strings_at args 1
    Commands.vgreduce (string name) (map string members)

  -- vgremove
  unfoldable pub vgremove : List Json → Go (Unit {0})
  vgremove args = do name ← string_at args 0; Commands.vgremove (string name)

  -- lvcreate
  unfoldable pub lvcreate : List Json → Go (Unit {0})
  lvcreate args = do
    name ← string_at args 0
    vg ← string_at args 1
    lv_type ← string_at args 2
    size ← arg args 3
    Commands.lvcreate name (string vg) lv_type (as_any size)

  -- lvrename
  unfoldable pub lvrename : List Json → Go (Unit {0})
  lvrename args = do
    old_name ← string_at args 0
    new_name ← string_at args 1
    vg ← string_at args 2
    Commands.lvrename old_name new_name (string vg)
    pure tt

  -- lvremove
  unfoldable pub lvremove : List Json → Go (Unit {0})
  lvremove args = do name ← string_at args 0; Commands.lvremove (string name)

  -- make-thin-pool
  unfoldable pub make_thin_pool : List Json → Go (Unit {0})
  make_thin_pool args = do
    pool ← string_at args 0
    metadata ← string_at args 1
    Commands.make_thin_pool (string metadata) (string pool)

  -- lvcreate-thin
  unfoldable pub lvcreate_thin : List Json → Go (Unit {0})
  lvcreate_thin args = do
    name ← string_at args 0
    vg ← string_at args 1
    size ← float_at args 2
    pool ← string_at args 3
    Commands.lv_thin_create name (string vg) (string pool) size

  -- The partition that stands for a volume
  unfoldable pub volume_partition : Lv → Text → Partition
  volume_partition lv fs =
      partition_at (format (text "/dev/" ∷ lv.vg_name ∷ text "/" ∷ lv.name ∷ [])) fs

  -- lvm-format
  unfoldable pub lvm_format : List Json → Go (Unit {0})
  lvm_format args = do
    name ← string_at args 0
    fs ← string_at args 1
    lv ← Commands.find_lv name []
    format_partition (volume_partition lv fs) 2 args

  -- lvm-luks-format
  unfoldable pub lvm_luks_format : List Json → Go (Unit {0})
  lvm_luks_format args = do
    name ← string_at args 0
    fs ← string_at args 1
    password ← string_at args 2
    lv ← Commands.find_lv name []
    luks_format_partition (volume_partition lv fs) password 3 args
