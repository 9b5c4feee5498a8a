-- ===== src/Disk/Partition/Emits.antt =====
-- The events of mounting a partition (core/disk/partition.go).
use albius.Base.{◌≡◌, sym, ◌⊎◌, inl, inr, Bool, true, false, [], Text}
use albius.Machine.{Platform, World, ok, pure, fail, Event, ran, shell}
use albius.Machine.Returns.{ok-injective, bind-returns}
use albius.Machine.Emits.{Emits, Emits-bind, Emits-bind_gave, emit_rules}
use albius.Util.Emits.{util_rules}
use albius.Luks.{
  luks_name, mapper_path, luks_close_command, is_luks_command, luks_open_command, luks_password,
}
use albius.Luks.Emits.{luks_close-Emits, is_luks-Emits, luks_try_open-Emits}
use albius.Disk.Partition.{
  uuid_command, mountpoints_command, mount_command, get_uuid_by_path, mapper_path_if,
  get_luks_mapper_path, mountpoints, mount_source, mount_at, mount, is_mounted, unmount_target,
  unmount_directory, unmount_if, unmount_partition, umount_command,
}

module _ ⦃P : Platform⦄ {E : Event → Type 0} where
  pub get_uuid_by_path-Emits :
      (path : Text) → E (ran (shell [] (uuid_command path))) → Emits E (get_uuid_by_path path)
  unfolding get_uuid_by_path
  get_uuid_by_path-Emits path h = search (emit_rules, util_rules)

  pub mountpoints-Emits :
      (path : Text) → E (ran (shell [] (mountpoints_command path))) → Emits E (mountpoints path)
  unfolding mountpoints
  mountpoints-Emits path h = search (emit_rules, util_rules)

-- What UnmountPartition unmounts
module _ ⦃P : Platform⦄ (path : Text) where
  mapper_path_if-Gave :
      (b : Bool) (w : World) (target : Text)
      → (mapper_path_if path b w).0 ≡ ok target
      → (name : Text) × (target ≡ mapper_path name)
  unfolding mapper_path_if pure fail
  mapper_path_if-Gave true w target h =
      let (name, h1, h2) = bind-returns _ _ w h in (name, sym (ok-injective h2))
  mapper_path_if-Gave false w target h = cc h

  unmount_target-Gave :
      (b : Bool) (w : World) (target : Text)
      → (unmount_target path b w).0 ≡ ok target
      → (target ≡ path) ⊎ ((name : Text) × (target ≡ mapper_path name))
  unfolding unmount_target get_luks_mapper_path pure
  unmount_target-Gave false w target h = inl (sym (ok-injective h))
  unmount_target-Gave true w target h =
      let (name, h1, h2) = bind-returns _ _ w h in
      let (done, h3, h4) = bind-returns _ _ _ h2 in
      let (luks', h5, h6) = bind-returns _ _ _ h4 in inr (mapper_path_if-Gave luks' _ target h6)

module _ ⦃P : Platform⦄ {E : Event → Type 0} (path : Text)
    (uuid : E (ran (shell [] (uuid_command path))))
    (luks : E (ran (shell [] (is_luks_command path)))) where
  mapper_path_if-Emits : (b : Bool) → Emits E (mapper_path_if path b)
  unfolding mapper_path_if
  mapper_path_if-Emits true = search (emit_rules, get_uuid_by_path-Emits)
  mapper_path_if-Emits false = search emit_rules

  get_luks_mapper_path-Emits : Emits E (get_luks_mapper_path path)
  unfolding get_luks_mapper_path
  get_luks_mapper_path-Emits = search (emit_rules, is_luks-Emits, mapper_path_if-Emits)

  unmount_target-Emits :
      (b : Bool)
      → ((name : Text) → E (ran (shell [] (luks_close_command (luks_name name)))))
      → Emits E (unmount_target path b)
  unfolding unmount_target
  unmount_target-Emits true closes =
      search
        (emit_rules, get_uuid_by_path-Emits, luks_close-Emits, closes, get_luks_mapper_path-Emits)
  unmount_target-Emits false closes = search emit_rules

  unmount_directory-Emits :
      (target : Text)
      → E (ran (shell [] (umount_command target)))
      → Emits E (unmount_directory target)
  unfolding unmount_directory
  unmount_directory-Emits target h = search (emit_rules, util_rules)

  unmount_if-Emits :
      (b : Bool)
      → ((name : Text) → E (ran (shell [] (luks_close_command (luks_name name)))))
      → E (ran (shell [] (umount_command path)))
      → ((name : Text) → E (ran (shell [] (umount_command (mapper_path name)))))
      → Emits E (unmount_if path b)
  unfolding unmount_if
  unmount_if-Emits true closes unmounts mapped = Emits-bind _ _ (is_luks-Emits path luks) (λ b.
      Emits-bind_gave (unmount_target path b) _ (unmount_target-Emits b closes) (λ target gave.
        elim (unmount_target-Gave path b gave.0 target gave.1) [
          | inl e ↦ unmount_directory-Emits target (rw e unmounts)
          | inr (name, e) ↦ unmount_directory-Emits target (rw e (mapped name))
        ]))
  unmount_if-Emits false closes unmounts mapped = search emit_rules

  is_mounted-Emits : E (ran (shell [] (mountpoints_command path))) → Emits E (is_mounted path)
  unfolding is_mounted
  is_mounted-Emits h = search (emit_rules, mountpoints-Emits)

  pub unmount_partition-Emits :
      E (ran (shell [] (mountpoints_command path)))
      → ((name : Text) → E (ran (shell [] (luks_close_command (luks_name name)))))
      → E (ran (shell [] (umount_command path)))
      → ((name : Text) → E (ran (shell [] (umount_command (mapper_path name)))))
      → Emits E (unmount_partition path)
  unfolding unmount_partition
  unmount_partition-Emits points closes unmounts mapped =
      search (emit_rules, is_mounted-Emits, unmount_if-Emits, closes, mapped)

module _ ⦃P : Platform⦄ {E : Event → Type 0}
    (uuid : (path : Text) → E (ran (shell [] (uuid_command path))))
    (points : (path : Text) → E (ran (shell [] (mountpoints_command path))))
    (luks : (path : Text) → E (ran (shell [] (is_luks_command path))))
    (opens : (path mapping : Text)
      → E (ran (shell (luks_password []) (luks_open_command path mapping [])))) where
  mount_source-Emits : (path : Text) (b : Bool) → Emits E (mount_source path b)
  unfolding mount_source
  mount_source-Emits path true = search (
    emit_rules, get_uuid_by_path-Emits, uuid, luks_try_open-Emits, opens,
    get_luks_mapper_path-Emits,
  )
  mount_source-Emits path false = search emit_rules

  mount_at-Emits :
      (source location : Text) (b : Bool)
      → E (ran (shell [] (mount_command source location)))
      → Emits E (mount_at source location b)
  unfolding mount_at
  mount_at-Emits source location true h = search emit_rules
  mount_at-Emits source location false h = search (emit_rules, util_rules)

  pub mount-Emits :
      (path location : Text)
      → ((source : Text) → E (ran (shell [] (mount_command source location))))
      → Emits E (mount path location)
  unfolding mount
  mount-Emits path location mounts = search (
    emit_rules, is_luks-Emits, luks, mount_source-Emits, mountpoints-Emits, points, mount_at-Emits,
    mounts,
  )
