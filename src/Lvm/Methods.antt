-- ===== src/Lvm/Methods.antt =====
-- The methods of Pv, Vg and Lv in core/lvm/pv.go, vg.go and lv.go. A method
-- that assigns to its receiver returns the receiver's new value, and an error leaves it as it was.
use albius.Base.{Bool, List, Text}
use albius.Machine.{Platform, Go}
use albius.Lvm.Attrs.{
  has_bit, pv_attr_missing, pv_attr_exported, pv_attr_duplicate, pv_attr_allocatable, pv_attr_used,
  vg_attr_writable, vg_attr_readonly, vg_attr_resizable, vg_attr_exported, vg_attr_partial,
  vg_attr_contiguous, vg_attr_cling, vg_attr_normal, vg_attr_anywhere, vg_attr_clustered,
  vg_attr_shared,
}
use albius.Lvm.Types.{Pv, Vg, Lv, Any, string, pv_pointer, vg_pointer, lv_pointer}
use albius.Lvm.Commands.{pvremove, vgrename, vgextend, vgreduce, vgremove, lvrename, lvremove}

module _ ⦃P : Platform⦄ where
  -- Pv.Remove
  unfoldable pub remove_pv : Pv → Go (Unit {0})
  remove_pv pv = pvremove (pv_pointer pv)

  -- Vg.Rename
  unfoldable pub rename_vg : Vg → Text → Go Vg
  rename_vg vg new_name = vgrename vg.name new_name

  -- Vg.Extend, Vg.Reduce and Vg.Remove
  unfoldable pub extend_vg : Vg → List Any → Go (Unit {0})
  extend_vg vg pvs = vgextend (vg_pointer vg) pvs

  unfoldable pub reduce_vg : Vg → List Any → Go (Unit {0})
  reduce_vg vg pvs = vgreduce (vg_pointer vg) pvs

  unfoldable pub remove_vg : Vg → Go (Unit {0})
  remove_vg vg = vgremove (vg_pointer vg)

  -- Lv.Rename and Lv.Remove
  unfoldable pub rename_lv : Lv → Text → Go Lv
  rename_lv lv new_name = lvrename lv.name new_name (string lv.vg_name)

  unfoldable pub remove_lv : Lv → Go (Unit {0})
  remove_lv lv = lvremove (lv_pointer lv)

  -- The tests on the attributes of a PV
  unfoldable pub pv_is_missing : Pv → Bool
  pv_is_missing pv = has_bit pv.attr pv_attr_missing

  unfoldable pub pv_is_exported : Pv → Bool
  pv_is_exported pv = has_bit pv.attr pv_attr_exported

  unfoldable pub pv_is_duplicate : Pv → Bool
  pv_is_duplicate pv = has_bit pv.attr pv_attr_duplicate

  unfoldable pub pv_is_allocatable : Pv → Bool
  pv_is_allocatable pv = has_bit pv.attr pv_attr_allocatable

  unfoldable pub pv_is_used : Pv → Bool
  pv_is_used pv = has_bit pv.attr pv_attr_used

  -- The tests on the attributes of a VG
  unfoldable pub vg_is_writable : Vg → Bool
  vg_is_writable vg = has_bit vg.attr vg_attr_writable

  unfoldable pub vg_is_readonly : Vg → Bool
  vg_is_readonly vg = has_bit vg.attr vg_attr_readonly

  unfoldable pub vg_is_resizable : Vg → Bool
  vg_is_resizable vg = has_bit vg.attr vg_attr_resizable

  unfoldable pub vg_is_exported : Vg → Bool
  vg_is_exported vg = has_bit vg.attr vg_attr_exported

  unfoldable pub vg_is_partial : Vg → Bool
  vg_is_partial vg = has_bit vg.attr vg_attr_partial

  unfoldable pub vg_is_contiguous : Vg → Bool
  vg_is_contiguous vg = has_bit vg.attr vg_attr_contiguous

  unfoldable pub vg_is_cling : Vg → Bool
  vg_is_cling vg = has_bit vg.attr vg_attr_cling

  unfoldable pub vg_is_normal : Vg → Bool
  vg_is_normal vg = has_bit vg.attr vg_attr_normal

  unfoldable pub vg_is_anywhere : Vg → Bool
  vg_is_anywhere vg = has_bit vg.attr vg_attr_anywhere

  unfoldable pub vg_is_clustered : Vg → Bool
  vg_is_clustered vg = has_bit vg.attr vg_attr_clustered

  unfoldable pub vg_is_shared : Vg → Bool
  vg_is_shared vg = has_bit vg.attr vg_attr_shared
