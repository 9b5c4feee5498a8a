-- ===== src/Recipe/Setup/Volumes/Secrets.antt =====
-- The cases `pvcreate` to `lvm-luks-format` (core/recipe.go) where environments of commands
-- differ.
use albius.Base.{refl, ltb, List, [], ◌∷◌, length, some, none, Text}
use albius.Machine.{Platform}
use albius.Machine.Secrets.{Alike, Alike-if, Alike-bind, Alike-pure, secret_rules}
use albius.Disk.Types.{partition_at}
use albius.Disk.Label.Secrets.{Alike-wait_for_partition}
use albius.Lvm.Types.{string}
use albius.Lvm.Commands.Secrets
use albius.Recipe.Values.{Json, Items, no_items, item}
use albius.Recipe.Values.Secrets.{
  Alike-arg, Alike-as_string, Alike-as_array, Alike-string_at, Alike-float_at, Alike-strings_at,
}
use albius.Recipe.Setup.Partitions.Secrets.{Alike-format_partition, Alike-luks_format_partition}
use albius.Recipe.Setup.Volumes.{
  pvcreate, resize_with, pvresize, pvremove, wait_for_members, members_if, vgcreate, vgrename,
  vgextend, vgreduce, vgremove, lvcreate, lvrename, lvremove, make_thin_pool, lvcreate_thin,
  volume_partition, lvm_format, lvm_luks_format,
}

module _ ⦃P : Platform⦄ where
  Alike-wait_for_members : (items : Items) → Alike (wait_for_members items) (wait_for_members items)
  unfolding wait_for_members
  Alike-wait_for_members no_items = search secret_rules
  Alike-wait_for_members (item value items) = Alike-bind _ _ _ _ (Alike-as_string value) (λ path.
      Alike-bind _ _ _ _ (Alike-wait_for_partition (partition_at path [])) (λ done.
        Alike-bind _ _ _ _ (Alike-wait_for_members items) (λ rest. Alike-pure (path ∷ rest))))

module _ ⦃P : Platform⦄ (args : List Json) where
  pub Alike-pvcreate : Alike (pvcreate args) (pvcreate args)
  unfolding pvcreate
  Alike-pvcreate = Alike-bind _ _ _ _ (Alike-string_at args args 0 refl) (λ path.
      Alike-bind _ _ _ _ (Alike-wait_for_partition (partition_at path []))
        (λ ready. Secrets.Alike-pvcreate path))

  Alike-resize_with : (path : Text) → Alike (resize_with path args) (resize_with path args)
  unfolding resize_with
  Alike-resize_with path =
      Alike-if (ltb 1 (length args)) _ _ _ _
        (Alike-bind _ _ _ _ (Alike-float_at args args 1 refl)
          (λ size. Secrets.Alike-pvresize (string path) (some size)))
        (Secrets.Alike-pvresize (string path) none)

  pub Alike-pvresize : Alike (pvresize args) (pvresize args)
  unfolding pvresize
  Alike-pvresize =
      Alike-bind _ _ _ _ (Alike-string_at args args 0 refl) (λ path. Alike-resize_with path)

  pub Alike-pvremove : Alike (pvremove args) (pvremove args)
  unfolding pvremove
  Alike-pvremove =
      Alike-bind _ _ _ _ (Alike-string_at args args 0 refl)
        (λ path. Secrets.Alike-pvremove (string path))

  Alike-members_if : Alike (members_if args) (members_if args)
  unfolding members_if
  Alike-members_if =
      Alike-if (ltb 1 (length args)) _ _ _ _
        (Alike-bind _ _ _ _ (Alike-arg args args 1 refl) (λ value.
          Alike-bind _ _ _ _ (Alike-as_array value) (λ items. Alike-wait_for_members items)))
        (Alike-pure [])

  pub Alike-vgcreate : Alike (vgcreate args) (vgcreate args)
  unfolding vgcreate
  Alike-vgcreate =
      Alike-bind _ _ _ _ (Alike-string_at args args 0 refl)
        (λ name. Alike-bind _ _ _ _ (Alike-members_if) (λ members. Secrets.Alike-vgcreate name _))

  pub Alike-vgrename : Alike (vgrename args) (vgrename args)
  unfolding vgrename
  Alike-vgrename = Alike-bind _ _ _ _ (Alike-string_at args args 0 refl) (λ old_name.
      Alike-bind _ _ _ _ (Alike-string_at args args 1 refl) (λ new_name.
        Alike-bind _ _ _ _ (Secrets.Alike-vgrename old_name new_name) (λ vg. Alike-pure tt)))

  pub Alike-vgextend : Alike (vgextend args) (vgextend args)
  unfolding vgextend
  Alike-vgextend = Alike-bind _ _ _ _ (Alike-string_at args args 0 refl) (λ name.
      Alike-bind _ _ _ _ (Alike-strings_at args args 1 refl)
        (λ members. Secrets.Alike-vgextend (string name) _))

  pub Alike-vgreduce : Alike (vgreduce args) (vgreduce args)
  unfolding vgreduce
  Alike-vgreduce = Alike-bind _ _ _ _ (Alike-string_at args args 0 refl) (λ name.
      Alike-bind _ _ _ _ (Alike-strings_at args args 1 refl)
        (λ members. Secrets.Alike-vgreduce (string name) _))

  pub Alike-vgremove : Alike (vgremove args) (vgremove args)
  unfolding vgremove
  Alike-vgremove =
      Alike-bind _ _ _ _ (Alike-string_at args args 0 refl)
        (λ name. Secrets.Alike-vgremove (string name))

  pub Alike-lvcreate : Alike (lvcreate args) (lvcreate args)
  unfolding lvcreate
  Alike-lvcreate = Alike-bind _ _ _ _ (Alike-string_at args args 0 refl) (λ name.
      Alike-bind _ _ _ _ (Alike-string_at args args 1 refl) (λ vg.
        Alike-bind _ _ _ _ (Alike-string_at args args 2 refl) (λ lv_type.
          Alike-bind _ _ _ _ (Alike-arg args args 3 refl)
            (λ size. Secrets.Alike-lvcreate name (string vg) lv_type _))))

  pub Alike-lvrename : Alike (lvrename args) (lvrename args)
  unfolding lvrename
  Alike-lvrename = Alike-bind _ _ _ _ (Alike-string_at args args 0 refl) (λ old_name.
      Alike-bind _ _ _ _ (Alike-string_at args args 1 refl) (λ new_name.
        Alike-bind _ _ _ _ (Alike-string_at args args 2 refl) (λ vg.
          Alike-bind _ _ _ _ (Secrets.Alike-lvrename old_name new_name (string vg))
            (λ lv. Alike-pure tt))))

  pub Alike-lvremove : Alike (lvremove args) (lvremove args)
  unfolding lvremove
  Alike-lvremove =
      Alike-bind _ _ _ _ (Alike-string_at args args 0 refl)
        (λ name. Secrets.Alike-lvremove (string name))

  pub Alike-make_thin_pool : Alike (make_thin_pool args) (make_thin_pool args)
  unfolding make_thin_pool
  Alike-make_thin_pool = Alike-bind _ _ _ _ (Alike-string_at args args 0 refl) (λ pool.
      Alike-bind _ _ _ _ (Alike-string_at args args 1 refl)
        (λ metadata. Secrets.Alike-make_thin_pool (string metadata) (string pool)))

  pub Alike-lvcreate_thin : Alike (lvcreate_thin args) (lvcreate_thin args)
  unfolding lvcreate_thin
  Alike-lvcreate_thin = Alike-bind _ _ _ _ (Alike-string_at args args 0 refl) (λ name.
      Alike-bind _ _ _ _ (Alike-string_at args args 1 refl) (λ vg.
        Alike-bind _ _ _ _ (Alike-float_at args args 2 refl) (λ size.
          Alike-bind _ _ _ _ (Alike-string_at args args 3 refl)
            (λ pool. Secrets.Alike-lv_thin_create name (string vg) (string pool) size))))

  pub Alike-lvm_format : Alike (lvm_format args) (lvm_format args)
  unfolding lvm_format
  Alike-lvm_format = Alike-bind _ _ _ _ (Alike-string_at args args 0 refl) (λ name.
      Alike-bind _ _ _ _ (Alike-string_at args args 1 refl) (λ fs.
        Alike-bind _ _ _ _ (Secrets.Alike-find_lv name [])
          (λ lv. Alike-format_partition args (volume_partition lv fs))))

  pub Alike-lvm_luks_format : Alike (lvm_luks_format args) (lvm_luks_format args)
  unfolding lvm_luks_format
  Alike-lvm_luks_format = Alike-bind _ _ _ _ (Alike-string_at args args 0 refl) (λ name.
      Alike-bind _ _ _ _ (Alike-string_at args args 1 refl) (λ fs.
        Alike-bind _ _ _ _ (Alike-string_at args args 2 refl) (λ p.
          Alike-bind _ _ _ _ (Secrets.Alike-find_lv name []) (λ lv.
            Alike-luks_format_partition p p refl (λ command s. refl) (volume_partition lv fs) 3 args
              args refl refl))))
