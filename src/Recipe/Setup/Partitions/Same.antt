-- ===== src/Recipe/Setup/Partitions/Same.antt =====
-- The cases `label` to `luks-format` (core/recipe.go) where environments of commands differ.
use albius.Base.{refl, List}
use albius.Machine.{Platform}
use albius.Machine.Secrets.{Alike, Alike-bind, secret_rules}
use albius.Disk.Types.{Disk}
use albius.Disk.Partition.Secrets.{
  Alike-remove_partition, Alike-resize_partition, Alike-name_partition, Alike-set_partition_flag,
}
use albius.Disk.Label.Secrets.{Alike-set_label}
use albius.Disk.Table.{get_partition}
use albius.Disk.Table.Secrets.{Alike-label_disk}
use albius.Recipe.Values.{Json, null, boolean, number, string, array, object}
use albius.Recipe.Values.Secrets.{Alike-arg, Alike-string_at, Alike-bool_at, Alike-field_at}
use albius.Recipe.Setup.Partitions.{
  label, rm, resizepart, new_name, namepart, setlabel, setflag, format_existing,
  luks_format_existing,
}
use albius.Recipe.Setup.Partitions.Secrets.{
  Alike-format_partition, Alike-with_partition, Alike-luks_format_partition,
}

module _ ⦃P : Platform⦄ (target : Disk) (args : List Json) where
  pub Alike-label : Alike (label target args) (label target args)
  unfolding label
  Alike-label =
      Alike-bind _ _ _ _ (Alike-string_at args args 0 refl)
        (λ scheme. Alike-label_disk target scheme)

  pub Alike-rm : Alike (rm target args) (rm target args)
  unfolding rm
  Alike-rm =
      Alike-bind _ _ _ _ (Alike-field_at args args 0 refl)
        (λ n. Alike-with_partition (get_partition n target.partitions) _ _ Alike-remove_partition)

  pub Alike-resizepart : Alike (resizepart target args) (resizepart target args)
  unfolding resizepart
  Alike-resizepart = Alike-bind _ _ _ _ (Alike-field_at args args 0 refl) (λ n.
      Alike-bind _ _ _ _ (Alike-field_at args args 1 refl) (λ end.
        Alike-with_partition (get_partition n target.partitions) _ _
          (λ part. Alike-resize_partition part end)))

  Alike-new_name : (value : Json) → Alike (new_name value) (new_name value)
  unfolding new_name
  Alike-new_name null = search secret_rules
  Alike-new_name (boolean b) = search secret_rules
  Alike-new_name (number f) = search secret_rules
  Alike-new_name (string s) = search secret_rules
  Alike-new_name (array items) = search secret_rules
  Alike-new_name object = search secret_rules

  pub Alike-namepart : Alike (namepart target args) (namepart target args)
  unfolding namepart
  Alike-namepart = Alike-bind _ _ _ _ (Alike-field_at args args 0 refl) (λ n.
      Alike-bind _ _ _ _ (Alike-arg args args 1 refl) (λ value.
        Alike-bind _ _ _ _ (Alike-new_name value) (λ name.
          Alike-with_partition (get_partition n target.partitions) _ _
            (λ part. Alike-name_partition part name))))

  pub Alike-setlabel : Alike (setlabel target args) (setlabel target args)
  unfolding setlabel
  Alike-setlabel = Alike-bind _ _ _ _ (Alike-field_at args args 0 refl) (λ n.
      Alike-bind _ _ _ _ (Alike-arg args args 1 refl) (λ value.
        Alike-bind _ _ _ _ (Alike-new_name value) (λ name.
          Alike-with_partition (get_partition n target.partitions) _ _
            (λ part. Alike-set_label part name))))

  pub Alike-setflag : Alike (setflag target args) (setflag target args)
  unfolding setflag
  Alike-setflag = Alike-bind _ _ _ _ (Alike-field_at args args 0 refl) (λ n.
      Alike-bind _ _ _ _ (Alike-string_at args args 1 refl) (λ flag.
        Alike-bind _ _ _ _ (Alike-bool_at args args 2 refl) (λ state.
          Alike-with_partition (get_partition n target.partitions) _ _
            (λ part. Alike-set_partition_flag part flag state))))

  pub Alike-format_existing : Alike (format_existing target args) (format_existing target args)
  unfolding format_existing
  Alike-format_existing = Alike-bind _ _ _ _ (Alike-field_at args args 0 refl) (λ n.
      Alike-bind _ _ _ _ (Alike-string_at args args 1 refl) (λ fs.
        Alike-with_partition (get_partition n target.partitions) _ _
          (λ part. Alike-format_partition args (record part { filesystem = fs }))))

  pub Alike-any_luks_format :
      Alike (luks_format_existing target args) (luks_format_existing target args)
  unfolding luks_format_existing
  Alike-any_luks_format = Alike-bind _ _ _ _ (Alike-field_at args args 0 refl) (λ n.
      Alike-bind _ _ _ _ (Alike-string_at args args 1 refl) (λ fs.
        Alike-bind _ _ _ _ (Alike-string_at args args 2 refl) (λ p.
          Alike-with_partition (get_partition n target.partitions) _ _ (λ part.
            Alike-luks_format_partition p p refl (λ command s. refl)
              (record part { filesystem = fs }) 3 args args refl refl))))
