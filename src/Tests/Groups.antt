-- ===== src/Tests/Groups.antt =====
-- Vgs on a machine with one group of one PV, beside a PV of another
use albius.Base.{
  ◌≡◌, refl, none, [], ◌∷◌, text, format, join, trim_space, split, cons_head, list_beq, pos, All,
  atoi, has_prefix,
}
use albius.Machine.{Platform, World, ok, pure, ◌>>=◌, handling, perform, run_process, lift}
use albius.Lvm.Types.{Pv, Vg}
use albius.Lvm.Attrs.{parse_pv_attrs, parse_vg_attrs}
use albius.Lvm.Reports.{wrapped, parse_pv, parse_pvs, parse_lvs, parse_vg, pvs_in, lvs_in}
use albius.Lvm.Commands.{lvm_run, pvs, lvs, collect_vgs, vgs}
use albius.Lvm.Commands.Emits.{pvs_command, lvs_command, vgs_command}
use albius.Lvm.Commands.Groups.{IsComplete, vgs-IsComplete}
use albius.Tests.Scripted.{scripted}

abbrev grouped : Platform
grouped =
    scripted
      ((vgs_command [], text "  data,1,0,0,wz--n-,5,5")
        ∷ (pvs_command [], text "  /dev/sda1,data,lvm2,a--,5,5\n/dev/sdb1,home,lvm2,a--,7,7")
        ∷ (lvs_command [], [])
        ∷ [])
      (λ out. none)

abbrev member : Pv ⦃P = grouped⦄
member = record {
  path = text "/dev/sda1";
  vg_name = text "data";
  pv_fmt = text "lvm2";
  attr = 8;
  size = pos 5;
  free = pos 5;
}

abbrev data_group : Vg ⦃P = grouped⦄
data_group = record {
  name = text "data";
  pvs = member ∷ [];
  lvs = [];
  attr = 133;
  size = pos 5;
  free = pos 5;
}

abbrev before : World ⦃P = grouped⦄
before = record { state = tt; log = [] }

lists_one : (vgs ⦃P = grouped⦄ [] before).0 ≡ ok (data_group ∷ [])
unfolding vgs collect_vgs pvs lvs lvm_run run_process perform handling lift ◌>>=◌ pure parse_vg
    parse_pvs parse_pv parse_lvs pvs_in lvs_in wrapped parse_vg_attrs parse_pv_attrs vgs_command
    pvs_command lvs_command text format join trim_space split cons_head list_beq atoi has_prefix
lists_one = refl

vgs-IsComplete_example : All (IsComplete ⦃P = grouped⦄) (data_group ∷ [])
vgs-IsComplete_example = vgs-IsComplete ⦃P = grouped⦄ [] before (data_group ∷ []) lists_one
