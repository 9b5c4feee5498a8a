-- ===== src/Disk/Filesystem/Initramfs.antt =====
-- What `UpdateInitramfs` (core/disk/filesystem.go) does, in order.
use albius.Base.{List, [], ◌∷◌, ◌++◌, map, Text, text}
use albius.Machine.{Event, ran, shell, chroot}
use albius.Machine.Runs.{Runs}
use albius.Disk.Filesystem.{bind_command, unbind_command}

abbrev binds : Text → List Text → List Event
binds root mounts = map (λ mount. ran (shell [] (bind_command root mount))) mounts

abbrev unbinds : Text → List Text → List Event
unbinds root mounts = map (λ mount. ran (shell [] (unbind_command root mount))) mounts

-- Each process of UpdateInitramfs, by its text
abbrev pub initramfs_events : Text → List Event
initramfs_events root =
    ran (shell [] (text "mount --bind /dev " ++ root ++ text "/dev"))
    ∷ ran (shell [] (text "mount --bind /dev/pts " ++ root ++ text "/dev/pts"))
    ∷ ran (shell [] (text "mount --bind /proc " ++ root ++ text "/proc"))
    ∷ ran (shell [] (text "mount --bind /sys " ++ root ++ text "/sys"))
    ∷ ran (chroot root (text "update-initramfs -c -k all"))
    ∷ ran (shell [] (text "umount " ++ root ++ text "/dev/pts"))
    ∷ ran (shell [] (text "umount " ++ root ++ text "/dev"))
    ∷ ran (shell [] (text "umount " ++ root ++ text "/proc"))
    ∷ ran (shell [] (text "umount " ++ root ++ text "/sys"))
    ∷ []
