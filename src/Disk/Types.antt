-- ===== src/Disk/Types.antt =====
-- The structs of core/disk/disk.go and core/disk/partition.go.
use albius.Base.{List, Text, text, ℤ}

-- The filesystems by name
abbrev pub btrfs : Text
btrfs = text "btrfs"

abbrev pub ext2 : Text
ext2 = text "ext2"

abbrev pub ext3 : Text
ext3 = text "ext3"

abbrev pub ext4 : Text
ext4 = text "ext4"

abbrev pub fat16 : Text
fat16 = text "fat16"

abbrev pub fat32 : Text
fat32 = text "fat32"

abbrev pub hfs : Text
hfs = text "hfs"

abbrev pub hfs_plus : Text
hfs_plus = text "hfs+"

abbrev pub linux_swap : Text
linux_swap = text "linux-swap"

abbrev pub ntfs : Text
ntfs = text "ntfs"

abbrev pub reiserfs : Text
reiserfs = text "reiserfs"

abbrev pub udf : Text
udf = text "udf"

abbrev pub xfs : Text
xfs = text "xfs"

abbrev pub msdos : Text
msdos = text "msdos"

pub record Partition : Type 0 where
  pub number : ℤ
  pub start : Text
  pub end : Text
  pub size : Text
  pub type : Text
  pub path : Text
  pub filesystem : Text

-- A partition of which the code sets the path alone, or the path and the filesystem.
abbrev pub partition_at : Text → Text → Partition
partition_at path filesystem = record {
  number = ℤ.pos 0;
  start = List.[];
  end = List.[];
  size = List.[];
  type = List.[];
  path = path;
  filesystem = filesystem;
}

pub record Disk : Type 0 where
  pub path : Text
  pub size : Text
  pub model : Text
  pub transport : Text
  pub label : Text
  pub logical_sector_size : ℤ
  pub physical_sector_size : ℤ
  pub max_partitions : ℤ
  pub partitions : List Partition
