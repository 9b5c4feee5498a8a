-- ===== src/Recipe/Setup/Partitions/Secrets.antt =====
-- mkpart and luks-format (core/recipe.go) with two LUKS passwords.
use albius.Base.{
  ◌≡◌, refl, ℕ, ltb, ◌&&◌, has_prefix, text, list_eq, ◌+◌, ◌==◌, nat_eq, List, [], ◌∷◌, length,
  get_elem?, Text, ℤ, Option, none, some,
}
use albius.Machine.{Platform, shell, Go, nil_dereference}
use albius.Machine.Secrets.{Alike, Alike-throw, Alike-bind, Alike-if, Alike-pure, secret_rules}
use albius.Luks.{luks_password}
use albius.Luks.Secrets.{Alike-luks_format, Alike-luks_open}
use albius.Disk.Types.{Partition, Disk}
use albius.Disk.Filesystem.Secrets.{Alike-get_uuid_by_path, Alike-make_fs, Alike-luks_make_fs}
use albius.Disk.Label.Secrets.{Alike-set_label, Alike-luks_set_label, Alike-wait_for_partition}
use albius.Disk.Table.{get_partition}
use albius.Disk.Table.Secrets.{Alike-new_partition}
use albius.Recipe.Values.{Json, string}
use albius.Recipe.Values.Secrets.{
  Alike-string_at, Alike-int_at, Alike-field_at, Alike-string_at_secret,
}
use albius.Recipe.Setup.Partitions.{
  with_partition, encrypt, make_encrypted, make_plain, make_either, mkpart, label_if,
  format_partition, luks_format_partition, luks_format_existing,
}

module _ ⦃P : Platform⦄ where
  Alike-label_if :
      (k : ℕ) (args args' : List Json) (set : Text → Go (Unit {0}))
      → length args ≡ length args'
      → get_elem? args k ≡ get_elem? args' k
      → ((name : Text) → Alike (set name) (set name))
      → Alike (label_if k args set) (label_if k args' set)
  unfolding label_if
  Alike-label_if k args args' set hl hk h = rw hl (
      Alike-if (length args' == k + 1) _ _ _ _
        (Alike-bind _ _ _ _ (Alike-string_at args args' k hk) h) (Alike-pure tt))

  pub Alike-with_partition :
      (part : Option Partition) (f f' : Partition → Go (Unit {0}))
      → ((part : Partition) → Alike (f part) (f' part))
      → Alike (with_partition part f) (with_partition part f')
  unfolding with_partition
  Alike-with_partition none f f' h = Alike-throw nil_dereference
  Alike-with_partition (some part) f f' h = h part

  Alike-make_plain :
      (target : Disk) (name fs : Text) (start end : ℤ)
      → Alike (make_plain target name fs start end) (make_plain target name fs start end)
  unfolding make_plain
  Alike-make_plain target name fs start end = search (secret_rules, Alike-new_partition)

  module _ (p q : Text) (e : (p == []) ≡ (q == []))
      (same_answers : (command : Text) (s : P.State)
        → P.exec (shell (luks_password p) command) s
          ≡ P.exec (shell (luks_password q) command) s) where
    Alike-encrypt : (part : Partition) → Alike (encrypt part p) (encrypt part q)
    unfolding encrypt
    Alike-encrypt part = Alike-bind _ _ _ _ (Alike-luks_format p q same_answers part.path) (λ _.
        Alike-bind _ _ _ _ (Alike-wait_for_partition part) (λ _.
          Alike-bind _ _ _ _ (Alike-get_uuid_by_path part.path)
            (λ uuid. Alike-luks_open p q same_answers part.path _ e)))

    pub Alike-luks_format_partition :
        (part : Partition) (k : ℕ) (args args' : List Json)
        → length args ≡ length args'
        → get_elem? args k ≡ get_elem? args' k
        → Alike (luks_format_partition part p k args) (luks_format_partition part q k args')
    unfolding luks_format_partition
    Alike-luks_format_partition part k args args' hl hk =
        Alike-bind _ _ _ _ (Alike-encrypt part) (λ _.
          Alike-bind _ _ _ _ (Alike-luks_make_fs part)
            (λ _. Alike-label_if k args args' _ hl hk (λ name. Alike-luks_set_label part name)))

    Alike-make_encrypted :
        (target : Disk) (name fs : Text) (start end : ℤ)
        → Alike
            (make_encrypted target name fs start end p)
            (make_encrypted target name fs start end q)
    unfolding make_encrypted
    Alike-make_encrypted target name fs start end =
        Alike-bind _ _ _ _ (Alike-new_partition target name [] start end) (λ made.
          Alike-bind _ _ _ _ (Alike-encrypt made.1)
            (λ _. search (secret_rules, Alike-luks_make_fs, Alike-luks_set_label)))

    Alike-make_either :
        (target : Disk) (name fs : Text) (start end : ℤ) (args args' : List Json)
        → length args ≡ length args'
        → get_elem? args 4 ≡ some (string p)
        → get_elem? args' 4 ≡ some (string q)
        → Alike
            (make_either target name fs start end args)
            (make_either target name fs start end args')
    unfolding make_either
    Alike-make_either target name fs start end args args' hl hp4 hq4 = rw hl (
        Alike-if (ltb 4 (length args') && has_prefix fs (text "luks-")) _ _ _ _
          (Alike-string_at_secret args args' 4 p q _ _ hp4 hq4
            (Alike-make_encrypted target name fs start end))
          (Alike-make_plain target name fs start end))

    pub Alike-mkpart :
        (target : Disk) (name fs start end : Json) (rest : List Json)
        → Alike
            (mkpart target (name ∷ fs ∷ start ∷ end ∷ string p ∷ rest))
            (mkpart target (name ∷ fs ∷ start ∷ end ∷ string q ∷ rest))
    unfolding mkpart
    Alike-mkpart target name fs start end rest =
        Alike-bind _ _ _ _ (Alike-string_at _ _ 0 refl) (λ n.
          Alike-bind _ _ _ _ (Alike-string_at _ _ 1 refl) (λ f.
            Alike-bind _ _ _ _ (Alike-int_at _ _ 2 refl) (λ a.
              Alike-bind _ _ _ _ (Alike-int_at _ _ 3 refl) (λ b.
                Alike-make_either target n f a b (name ∷ fs ∷ start ∷ end ∷ string p ∷ rest)
                  (name ∷ fs ∷ start ∷ end ∷ string q ∷ rest) refl refl refl))))

    pub Alike-luks_format_existing :
        (target : Disk) (n fs : Json) (rest : List Json)
        → Alike
            (luks_format_existing target (n ∷ fs ∷ string p ∷ rest))
            (luks_format_existing target (n ∷ fs ∷ string q ∷ rest))
    unfolding luks_format_existing
    Alike-luks_format_existing target n fs rest =
        Alike-bind _ _ _ _ (Alike-field_at _ _ 0 refl) (λ number.
          Alike-bind _ _ _ _ (Alike-string_at _ _ 1 refl) (λ f.
            Alike-string_at_secret _ _ 2 p q _ _ refl refl (
              Alike-with_partition (get_partition number target.partitions) _ _ (λ part.
                Alike-luks_format_partition (record part { filesystem = f }) 3 _ _ refl refl))))

  pub Alike-format_partition :
      (args : List Json) (part : Partition)
      → Alike (format_partition part 2 args) (format_partition part 2 args)
  unfolding format_partition
  Alike-format_partition args part =
      Alike-bind _ _ _ _ (Alike-make_fs part)
        (λ done. Alike-label_if 2 args args _ refl refl (λ name. Alike-set_label part name))

  Alike-any_make_either :
      (target : Disk) (name fs : Text) (start end : ℤ) (args : List Json)
      → Alike
          (make_either target name fs start end args)
          (make_either target name fs start end args)
  unfolding make_either
  Alike-any_make_either target name fs start end args =
      Alike-if (ltb 4 (length args) && has_prefix fs (text "luks-")) _ _ _ _
        (Alike-bind _ _ _ _ (Alike-string_at args args 4 refl)
          (λ p. Alike-make_encrypted p p refl (λ command s. refl) target name fs start end))
        (Alike-make_plain target name fs start end)

  pub Alike-any_mkpart :
      (target : Disk) (args : List Json) → Alike (mkpart target args) (mkpart target args)
  unfolding mkpart
  Alike-any_mkpart target args = Alike-bind _ _ _ _ (Alike-string_at args args 0 refl) (λ name.
      Alike-bind _ _ _ _ (Alike-string_at args args 1 refl) (λ fs.
        Alike-bind _ _ _ _ (Alike-int_at args args 2 refl) (λ start.
          Alike-bind _ _ _ _ (Alike-int_at args args 3 refl)
            (λ end. Alike-any_make_either target name fs start end args))))
