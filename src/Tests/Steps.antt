-- ===== src/Tests/Steps.antt =====
-- Steps of the setup, and what reflection sets
use albius.Base.{inl, List, ◌≡◌, refl, some, [], ◌∷◌, ◌++◌, true, text, ℤ, pos, list_beq}
use albius.Machine.{World, Event, ran, shell, ok}
use albius.Machine.Emits.{Emits}
use albius.Machine.Secrets.{Alike}
use albius.Disk.Types.{Disk, partition_at}
use albius.Disk.Fields.{
  string_kind, float64_kind, int_type, Value, of_int, of_string, of_float, Field, set_field,
  set_found, set_value, converted, assert_float, is_int, is_float64,
}
use albius.Disk.Fields.Sets.{IsSetAt, set_field-IsSetAt}
use albius.Disk.Table.{remove_vgs, label_disk}
use albius.Disk.Table.Labelled.{LabelEvent, label_disk-Emits}
use albius.Disk.Table.Prefixes.{remove_vgs-append}
use albius.Lvm.Types.{Pv, Vg}
use albius.Recipe.Values.{string, number}
use albius.Recipe.Setup.{run_setup}
use albius.Recipe.Setup.Secrets.{
  SecretStep, mkpart_step, Template, plain, secret, with_password, run_setup-Alike,
}
use albius.Tests.Scripted.{silent}

abbrev encrypted : SecretStep ⦃P = silent⦄
encrypted =
    mkpart_step (string (text "root")) (string (text "luks-ext4")) (number (pos 1))
      (number (pos 50)) []

abbrev two_steps : List (Template ⦃P = silent⦄)
two_steps =
    plain (record {
      disk = text "/dev/sda";
      operation = text "label";
      params = string (text "gpt") ∷ [];
    })
    ∷ secret (text "/dev/sda") encrypted
    ∷ []

run_setup-Alike_example :
    Alike ⦃P = silent⦄
      (run_setup ⦃P = silent⦄ (with_password ⦃P = silent⦄ (b'a' ∷ []) two_steps))
      (run_setup ⦃P = silent⦄ (with_password ⦃P = silent⦄ (b'b' ∷ []) two_steps))
run_setup-Alike_example =
    run_setup-Alike ⦃P = silent⦄ (b'a' ∷ []) (b'b' ∷ []) (λ e. cc e) (λ e. cc e) (λ command s. refl)
      two_steps

abbrev small : Disk
small = record {
  path = text "/dev/sda";
  size = text "100MiB";
  model = [];
  transport = [];
  label = text "gpt";
  logical_sector_size = pos 512;
  physical_sector_size = pos 512;
  max_partitions = pos 128;
  partitions = partition_at (text "/dev/sda1") [] ∷ [];
}

label_disk-Emits_example :
    Emits ⦃P = silent⦄
      (LabelEvent ⦃P = silent⦄ small (text "gpt"))
      (label_disk ⦃P = silent⦄ small (text "gpt"))
label_disk-Emits_example = label_disk-Emits ⦃P = silent⦄ small (text "gpt")

-- A member of a group that is on the disk /dev/sdab
abbrev elsewhere : Pv ⦃P = silent⦄
elsewhere = record {
  path = text "/dev/sdab1";
  vg_name = text "data";
  pv_fmt = text "lvm2";
  attr = 0;
  size = pos 10;
  free = pos 0;
}

same_beginning : text "/dev/sdab1" ≡ text "/dev/sda" ++ text "b1"
unfolding text
same_beginning = refl

abbrev nowhere : World ⦃P = silent⦄
nowhere = record { state = tt; log = [] }

abbrev mixed : Vg ⦃P = silent⦄
mixed = record {
  name = text "data";
  pvs = elsewhere ∷ [];
  lvs = [];
  attr = 0;
  size = pos 10;
  free = pos 0;
}

remove_vgs-append_example :
    (es : List Event) × ((remove_vgs ⦃P = silent⦄ (text "/dev/sda") (mixed ∷ []) nowhere).1.log
      ≡ nowhere.log ++ (ran (shell [] (text "vgremove -y " ++ text "data")) ∷ es))
remove_vgs-append_example =
    remove_vgs-append ⦃P = silent⦄ (text "/dev/sda") (text "b1") mixed [] elsewhere nowhere
      (inl refl) same_beginning

abbrev model_field : Field ⦃P = silent⦄
model_field = record {
  name = text "Model";
  settable = true;
  value = record {
    type = record { full = text "string"; name = text "string"; kind = string_kind };
    contents = of_string (text "disk");
  };
}

abbrev limit_field : ℤ → Field ⦃P = silent⦄
limit_field n = record {
  name = text "MaxPartitions";
  settable = true;
  value = record { type = int_type; contents = of_int n };
}

-- The value that the package json reads from the number 128
abbrev read_128 : Value ⦃P = silent⦄
read_128 = record {
  type = record { full = text "float64"; name = text "float64"; kind = float64_kind };
  contents = of_float (pos 128);
}

sets_limit :
    set_field ⦃P = silent⦄
      (model_field ∷ limit_field (pos 0) ∷ [])
      (text "MaxPartitions")
      (some read_128)
    ≡ ok (model_field ∷ limit_field (pos 128) ∷ [])
unfolding set_field set_found set_value converted assert_float is_int is_float64 text list_beq
sets_limit = refl

set_field-IsSetAt_example :
    IsSetAt ⦃P = silent⦄
      (text "MaxPartitions")
      (model_field ∷ limit_field (pos 0) ∷ [])
      (model_field ∷ limit_field (pos 128) ∷ [])
set_field-IsSetAt_example =
    set_field-IsSetAt ⦃P = silent⦄ (model_field ∷ limit_field (pos 0) ∷ [])
      (model_field ∷ limit_field (pos 128) ∷ []) (text "MaxPartitions") (some read_128) sets_limit
