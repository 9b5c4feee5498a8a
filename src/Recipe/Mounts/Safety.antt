-- ===== src/Recipe/Mounts/Safety.antt =====
-- What `SetupMountpoints` of core/recipe.go may do to the machine.
use albius.Base.{
  ◌≡◌, refl, inl, inr, Among, Bool-cases, append-nil, list_beq_sound, text, format, Bool, true,
  false, Option, none, some, List, [], ◌∷◌, ◌++◌, Text, ℤ, ◌==◌, list_eq, nat_eq, ◌||◌,
}
use albius.Machine.{Platform, Event, ran, shell}
use albius.Machine.Emits.{Emits, Emits-bind, emit_rules}
use albius.Disk.Partition.Emits.{mount-Emits}
use albius.Disk.Table.Emits.{locate_disk-Emits}
use albius.Luks.{is_luks_command, luks_open_command, luks_password}
use albius.Disk.Types.{Partition, Disk}
use albius.Disk.Partition.{uuid_command, mountpoints_command, mount_command, mount}
use albius.Disk.Table.{print_command}
use albius.Recipe.Types.{Mountpoint, root_a, slash}
use albius.Recipe.Mounts.{
  base_root, part_number, cached_disk, mount_ordered, mount_found, mount_regular, mount_one,
  mount_all, setup_mountpoints,
}
use albius.Recipe.Order.{order_mountpoints}
use albius.Recipe.Order.Members.{order_mountpoints-Among}

-- The events of mounting: looking at devices, opening a LUKS partition without a password, and
-- mounting at a target of the recipe behind one of the two roots, the second for the target / only.
-- No other command is run, and no file is written or removed.
pub data MountEvent (mnts : List Mountpoint) : Event → Type 0 where
  asks_uuid : (path : Text) → MountEvent mnts (ran (shell [] (uuid_command path)))
  asks_mountpoints : (path : Text) → MountEvent mnts (ran (shell [] (mountpoints_command path)))
  prints_table : (name : Text) → MountEvent mnts (ran (shell [] (print_command name)))
  tests_luks : (path : Text) → MountEvent mnts (ran (shell [] (is_luks_command path)))
  opens :
      (path mapping : Text)
      → MountEvent mnts (ran (shell (luks_password []) (luks_open_command path mapping [])))
  mounts_a :
      (source : Text) (mnt : Mountpoint)
      → Among mnt mnts
      → MountEvent mnts
          (ran (shell [] (text "mount -m " ++ (source ++ (text " /mnt/a" ++ mnt.target)))))
  mounts_b :
      (source : Text) (mnt : Mountpoint)
      → Among mnt mnts
      → mnt.target ≡ text "/"
      → MountEvent mnts
          (ran (shell [] (text "mount -m " ++ (source ++ (text " /mnt/b" ++ mnt.target)))))

mount_command_lem :
    (source location : Text)
    → mount_command source location ≡ text "mount -m " ++ (source ++ (text " " ++ location))
unfolding mount_command format text
mount_command_lem source location = rw append-nil

under_a :
    (mnts : List Mountpoint) (source : Text) (mnt : Mountpoint)
    → Among mnt mnts
    → MountEvent mnts (ran (shell [] (mount_command source (root_a ++ mnt.target))))
unfolding text
under_a mnts source mnt among = rw mount_command_lem (mounts_a source mnt among)

under_base_root :
    (mnts : List Mountpoint) (source : Text) (mnt : Mountpoint) (b : Bool)
    → Among mnt mnts
    → MountEvent mnts (ran (shell [] (mount_command source (base_root mnt.target b ++ mnt.target))))
unfolding base_root text
under_base_root mnts source mnt false among = elim (Bool-cases (mnt.target == slash)) [
  | inl e ↦ rw e (under_a mnts source mnt among)
  | inr e ↦ rw e (under_a mnts source mnt among)
]
under_base_root mnts source mnt true among = elim (Bool-cases (mnt.target == slash)) [
  | inl e ↦ rw (e, mount_command_lem) (mounts_b source mnt among (list_beq_sound _ _ e))
  | inr e ↦ rw e (under_a mnts source mnt among)
]

-- The locations under the roots
abbrev Mountable : List Mountpoint → Text → Type 0
Mountable mnts location =
    (source : Text) → MountEvent mnts (ran (shell [] (mount_command source location)))

module _ ⦃P : Platform⦄ (recipe : List Mountpoint) where
  mount-safe :
      (path location : Text)
      → Mountable recipe location
      → Emits (MountEvent recipe) (mount path location)
  mount-safe = mount-Emits asks_uuid asks_mountpoints tests_luks opens

  mount_found-safe :
      (location : Text) (found : Option Partition)
      → Mountable recipe location
      → Emits (MountEvent recipe) (mount_found location found)
  unfolding mount_found
  mount_found-safe location none h = search emit_rules
  mount_found-safe location (some part) h = mount-safe part.path location h

  part_number-safe : (name : Text) (n : Option ℤ) → Emits (MountEvent recipe) (part_number name n)
  unfolding part_number
  part_number-safe name none = search emit_rules
  part_number-safe name (some n) = search emit_rules

  cached_disk-safe :
      (name : Text) (cache : List (Text × Disk)) (found : Option Disk)
      → Emits (MountEvent recipe) (cached_disk name cache found)
  unfolding cached_disk
  cached_disk-safe name cache (some disk) = search emit_rules
  cached_disk-safe name cache none = search (emit_rules, locate_disk-Emits, prints_table)

  mount_regular-safe :
      (path location : Text) (cache : List (Text × Disk))
      → Mountable recipe location
      → Emits (MountEvent recipe) (mount_regular path location cache)
  unfolding mount_regular
  mount_regular-safe path location cache h =
      search (emit_rules, part_number-safe, cached_disk-safe, mount_found-safe)

  mount_one-safe :
      (path location : Text) (cache : List (Text × Disk))
      → Mountable recipe location
      → Emits (MountEvent recipe) (mount_one path location cache)
  unfolding mount_one
  mount_one-safe path location cache h = search (emit_rules, mount-safe, mount_regular-safe)

  mount_all-safe :
      (mnts : List Mountpoint) (b : Bool) (cache : List (Text × Disk))
      → ((mnt : Mountpoint) → Among mnt mnts → Among mnt recipe)
      → Emits (MountEvent recipe) (mount_all mnts b cache)
  unfolding mount_all
  mount_all-safe [] b cache h = search emit_rules
  mount_all-safe (mnt ∷ mnts) b cache h =
      Emits-bind _ _
        (mount_one-safe mnt.partition (base_root mnt.target b ++ mnt.target) cache
          (λ source. under_base_root recipe source mnt b (h mnt (inl refl))))
        (λ cache'.
          mount_all-safe mnts (b || mnt.target == slash) cache'
            (λ other among. h other (inr among)))

  mount_ordered-safe :
      (ordered : Option (List Mountpoint))
      → ((mnts : List Mountpoint)
          → ordered ≡ some mnts
          → (mnt : Mountpoint) → Among mnt mnts
          → Among mnt recipe)
      → Emits (MountEvent recipe) (mount_ordered ordered)
  unfolding mount_ordered
  mount_ordered-safe none h = search emit_rules
  mount_ordered-safe (some mnts) h = mount_all-safe mnts false [] (h mnts refl)

module _ ⦃P : Platform⦄ where
  -- Whatever the recipe and the machine, and also when it fails, SetupMountpoints only looks at
  -- devices, opens LUKS partitions without a password, and mounts at /mnt/a followed by the target
  -- of a mountpoint of the recipe, or, where this target is /, at /mnt/b/. What a target is made of
  -- is not looked at.
  pub setup_mountpoints-Emits :
      (mnts : List Mountpoint) → Emits (MountEvent mnts) (setup_mountpoints mnts)
  unfolding setup_mountpoints
  setup_mountpoints-Emits mnts =
      mount_ordered-safe mnts (order_mountpoints mnts)
        (λ ordered e mnt. order_mountpoints-Among mnts ordered e mnt)
