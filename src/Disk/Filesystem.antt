-- ===== src/Disk/Filesystem.antt =====
-- core/disk/filesystem.go
pub mod Initramfs
pub mod Emits
pub mod Secrets
use albius.Base.{
  Bool, ◌||◌, List, [], ◌∷◌, ◌++◌, Text, text, format, Option, none, some, ◌==◌, list_eq, nat_eq,
  if◌then◌else◌,
}
use albius.Machine.{
  Platform, message, wrap, Go, pure, fail, ◌>>=◌, ◌>>◌, handling, create_path, append_path, fail_on,
}
use albius.Util.{run_command, run_in_chroot}
use albius.Luks.{mapper_path, write_entries}
use albius.Disk.Types.{
  Partition, partition_at, ext2, ext3, ext4, fat16, fat32, hfs, hfs_plus, linux_swap, udf,
}
use albius.Disk.Partition.{get_uuid_by_path}

unfoldable pub unsquashfs_command : Text → Text → Bool → Text
unsquashfs_command filesystem destination force = format (
    text "unsquashfs"
    ∷ (if force then text " -f" else [])
    ∷ text " -d "
    ∷ destination
    ∷ text " "
    ∷ filesystem
    ∷ [])

-- The command of `MakeFs`; `none` for a filesystem that it refuses.
unfoldable pub makefs_command : Text → Text → Option Text
makefs_command fs path =
    if fs == fat16
    then some (format (text "mkfs.fat -I -F 16 " ∷ path ∷ []))
    else if fs == fat32
    then some (format (text "mkfs.fat -I -F 32 " ∷ path ∷ []))
    else if fs == ext2 || (fs == ext3 || fs == ext4)
    then some (format (text "mkfs." ∷ fs ∷ text " -F " ∷ path ∷ []))
    else if fs == linux_swap
    then some (format (text "mkswap -f " ∷ path ∷ []))
    else if fs == hfs || (fs == hfs_plus || fs == udf)
    then none
    else some (format (text "mkfs." ∷ fs ∷ text " -f " ∷ path ∷ []))

abbrev pub fstab_header : Text
fstab_header =
    text
      "# /etc/fstab: static file system information.\n#\n# Use 'blkid' to print the universally unique identifier for a\n# device; this may be used with UUID= as a more robust way to name devices\n# that works even if  are added and removed. See fstab(5).\n#\n# <file system>  <mount point>  <type>  <options>  <dump>  <pass>"

unfoldable pub bind_command : Text → Text → Text
bind_command root mount = format (text "mount --bind " ∷ mount ∷ text " " ∷ root ∷ mount ∷ [])

unfoldable pub unbind_command : Text → Text → Text
unbind_command root mount = format (text "umount " ∷ root ∷ mount ∷ [])

abbrev pub initramfs_command : Text
initramfs_command = text "update-initramfs -c -k all"

abbrev pub mount_order : List Text
mount_order = text "/dev" ∷ text "/dev/pts" ∷ text "/proc" ∷ text "/sys" ∷ []

abbrev pub unmount_order : List Text
unmount_order = text "/dev/pts" ∷ text "/dev" ∷ text "/proc" ∷ text "/sys" ∷ []

module _ ⦃P : Platform⦄ where
  -- Unsquashfs
  unfoldable pub unsquashfs : Text → Text → Bool → Go (Unit {0})
  unsquashfs filesystem destination force =
      handling (wrap (text "failed to run unsquashfs: "))
        (run_command (unsquashfs_command filesystem destination force))

  run_makefs : Partition → Option Text → Go (Unit {0})
  run_makefs part none =
      fail (message (format (text "unsupported filesystem: " ∷ part.filesystem ∷ [])))
  run_makefs part (some c) =
      handling
        (wrap (
          format (
            text "failed to make "
            ∷ part.filesystem
            ∷ text " filesystem for "
            ∷ part.path
            ∷ text ": "
            ∷ [])))
        (run_command c)

  -- MakeFs
  unfoldable pub make_fs : Partition → Go (Unit {0})
  unfolding run_makefs
  make_fs part = run_makefs part (makefs_command part.filesystem part.path)

  -- LUKSMakeFs
  unfoldable pub luks_make_fs : Partition → Go (Unit {0})
  luks_make_fs part = do
    uuid ← get_uuid_by_path part.path
    make_fs (partition_at (mapper_path uuid) part.filesystem)

  -- GenFstab
  unfoldable pub gen_fstab : Text → List (List Text) → Go (Unit {0})
  gen_fstab root entries = do
    let path = format (root ∷ text "/etc/fstab" ∷ [])
    made ← create_path path
    fail_on made
    headed ← append_path path (fstab_header ++ (b'\n' ∷ []))
    fail_on headed
    write_entries path entries

  unfoldable pub bind_all : Text → List Text → Go (Unit {0})
  bind_all root [] = pure tt
  bind_all root (mount ∷ mounts) = do
    handling (wrap (format (text "error mounting " ∷ mount ∷ text " to chroot: " ∷ [])))
        (run_command (bind_command root mount))
    bind_all root mounts

  unfoldable pub unbind_all : Text → List Text → Go (Unit {0})
  unbind_all root [] = pure tt
  unbind_all root (mount ∷ mounts) = do
    handling (wrap (format (text "error unmounting " ∷ mount ∷ text " fron chroot: " ∷ [])))
        (run_command (unbind_command root mount))
    unbind_all root mounts

  -- UpdateInitramfs
  unfoldable pub update_initramfs : Text → Go (Unit {0})
  update_initramfs root = do
    bind_all root mount_order
    handling (wrap (text "failed to run update-initramfs command: "))
        (run_in_chroot root initramfs_command)
    unbind_all root unmount_order
