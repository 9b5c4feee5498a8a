-- ===== src/Recipe/Mounts.antt =====
-- The mounting loop of `SetupMountpoints` of core/recipe.go.
pub mod Safety
use albius.Base.{
  ℕ, Bool, true, false, not, ◌&&◌, ◌||◌, Option, none, some, List, [], ◌∷◌, ◌++◌, Text, text,
  has_prefix, drop_prefix, leb, is_digit, ℤ, atoi, ◌==◌, list_eq, nat_eq, if◌then◌else◌,
}
use albius.Machine.{
  Platform, message, not_number, nil_dereference, Go, pure, fail, throw, diverge, ◌>>=◌, ◌>>◌,
}
use albius.Util.{is_alpha, span, separate_disk_part}
use albius.Disk.Types.{Partition, Disk}
use albius.Disk.Partition.{mount}
use albius.Disk.Table.{get_partition, locate_disk}
use albius.Recipe.Types.{Mountpoint, root_a, root_b, slash}
use albius.Recipe.Order.{order_mountpoints}

-- [\w-]
abbrev pub is_word : ℕ → Bool
is_word c = is_alpha c || (is_digit c || (c == b'_' || c == b'-'))

lvm_tail : Text × Text → Bool
lvm_tail (name, []) = not (name == [])
lvm_tail (name, c ∷ rest) = false

lvm_names : Text × Text → Bool
unfolding lvm_tail
lvm_names (group, []) = false
lvm_names (group, c ∷ rest) = not (group == []) && (c == b'/' && lvm_tail (span is_word rest))

-- ^/dev/(?P<vg>[\w-]+)/(?P<lv>[\w-]+)$
unfoldable pub is_lvm_path : Text → Bool
unfolding lvm_names
is_lvm_path path =
    has_prefix path (text "/dev/") && lvm_names (span is_word (drop_prefix path (text "/dev/")))

unfoldable pub lookup_disk : Text → List (Text × Disk) → Option Disk
lookup_disk name [] = none
lookup_disk name ((key, disk) ∷ cache) = if key == name then some disk else lookup_disk name cache

-- The root under which a target is mounted: the second `/` goes to the second root.
unfoldable pub base_root : Text → Bool → Text
base_root target root_a_mounted = if target == slash && root_a_mounted then root_b else root_a

module _ ⦃P : Platform⦄ where
  -- `diskCache`: a disk is located once.
  cached_disk : Text → List (Text × Disk) → Option Disk → Go (Disk × List (Text × Disk))
  cached_disk name cache (some disk) = pure (disk, cache)
  cached_disk name cache none = do disk ← locate_disk name; pure (disk, (name, disk) ∷ cache)

  part_number : Text → Option ℤ → Go ℤ
  part_number name none = fail (not_number name)
  part_number name (some n) = pure n

  -- Mount of the partition that GetPartition found; a nil pointer is dereferenced.
  unfoldable pub mount_found : Text → Option Partition → Go (Unit {0})
  mount_found location none = throw nil_dereference
  mount_found location (some part) = mount part.path location

  -- A partition that is no LVM volume, by its disk and number
  unfoldable pub mount_regular : Text → Text → List (Text × Disk) → Go (List (Text × Disk))
  unfolding part_number cached_disk
  mount_regular path location cache = do
    let name = (separate_disk_part path).0
    let number = (separate_disk_part path).1
    n ← part_number number (atoi number)
    found ← cached_disk name cache (lookup_disk name cache)
    mount_found location (get_partition n found.0.partitions)
    pure found.1

  unfoldable pub mount_one : Text → Text → List (Text × Disk) → Go (List (Text × Disk))
  mount_one path location cache =
      if is_lvm_path path
      then (do mount path location; pure cache)
      else mount_regular path location cache

  unfoldable pub mount_all : List Mountpoint → Bool → List (Text × Disk) → Go (Unit {0})
  mount_all [] root_a_mounted cache = pure tt
  mount_all (mnt ∷ mnts) root_a_mounted cache = do
    cache' ← mount_one mnt.partition (base_root mnt.target root_a_mounted ++ mnt.target) cache
    mount_all mnts (root_a_mounted || mnt.target == slash) cache'

  mount_ordered : Option (List Mountpoint) → Go (Unit {0})
  mount_ordered none = diverge
  mount_ordered (some mnts) = mount_all mnts false []

  -- SetupMountpoints
  unfoldable pub setup_mountpoints : List Mountpoint → Go (Unit {0})
  unfolding mount_ordered
  setup_mountpoints mnts = mount_ordered (order_mountpoints mnts)
