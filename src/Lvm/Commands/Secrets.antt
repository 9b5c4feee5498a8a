-- ===== src/Lvm/Commands/Secrets.antt =====
-- The commands of core/lvm/lvm.go, and FindLv of core/lvm/lv.go, where environments of commands differ.
use albius.Base.{Option, List, [], ◌∷◌, Text, text, ◌==◌, list_eq, nat_eq}
use albius.Machine.{Platform, Completed, Exit, success, exited, not_started}
use albius.Machine.Secrets.{
  Alike, Alike-pure, Alike-lift, Alike-if, Alike-bind, Alike-attempt, secret_rules,
}
use albius.Lvm.Types.{Any, Vg}
use albius.Lvm.Commands.{
  lvm_result, lvm_run, lvm_do, first, pvscan_cache, pvcreate, pvs, pvresize, scan_all, pvremove,
  vgcreate, lvs, complete_vg, collect_vgs, vgs, vgrename, change_members, vgextend, vgreduce,
  vgremove, lvcreate, lv_thin_create, lvrename, lvremove, make_thin_pool, find_lv,
}

module _ ⦃P : Platform⦄ where
  Alike-lvm_result :
      (done : Completed) (exit : Exit) → Alike (lvm_result done exit) (lvm_result done exit)
  unfolding lvm_result
  Alike-lvm_result done success = search secret_rules
  Alike-lvm_result done (exited n) = search secret_rules
  Alike-lvm_result done (not_started why) = search secret_rules

  Alike-lvm_run : (pieces : List Text) → Alike (lvm_run pieces) (lvm_run pieces)
  unfolding lvm_run
  Alike-lvm_run pieces = search (secret_rules, Alike-lvm_result)

  Alike-lvs : (filter : List Text) → Alike (lvs filter) (lvs filter)
  unfolding lvs
  Alike-lvs filter = search (secret_rules, Alike-lvm_run)

  Alike-first : {A : Type 0} (xs : List A) → Alike (first xs) (first xs)
  unfolding first
  Alike-first [] = search secret_rules
  Alike-first (x ∷ xs) = search secret_rules

  pub Alike-find_lv :
      (name : Text) (rest : List Text) → Alike (find_lv name rest) (find_lv name rest)
  unfolding find_lv
  Alike-find_lv name rest = search (secret_rules, Alike-lvs, Alike-first)

  Alike-lvm_do : (pieces : List Text) → Alike (lvm_do pieces) (lvm_do pieces)
  unfolding lvm_do
  Alike-lvm_do pieces = search (secret_rules, Alike-lvm_run)

  Alike-pvscan_cache : (path : Text) → Alike (pvscan_cache path) (pvscan_cache path)
  unfolding pvscan_cache
  Alike-pvscan_cache path = search (secret_rules, Alike-lvm_do)

  pub Alike-pvcreate : (path : Text) → Alike (pvcreate path) (pvcreate path)
  unfolding pvcreate
  Alike-pvcreate path = search (secret_rules, Alike-lvm_do, Alike-pvscan_cache)

  Alike-pvs : (filter : List Text) → Alike (pvs filter) (pvs filter)
  unfolding pvs
  Alike-pvs filter = search (secret_rules, Alike-lvm_run)

  pub Alike-pvresize :
      (pv : Any) (size : Option P.F64) → Alike (pvresize pv size) (pvresize pv size)
  unfolding pvresize
  Alike-pvresize pv size = search (secret_rules, Alike-first, Alike-lvm_do)

  Alike-scan_all : (paths : List Text) → Alike (scan_all paths) (scan_all paths)
  unfolding scan_all
  Alike-scan_all [] = search secret_rules
  Alike-scan_all (path ∷ paths) =
      Alike-bind _ _ _ _ (Alike-attempt _ _ (Alike-pvscan_cache path))
        (λ done. Alike-scan_all paths)

  pub Alike-pvremove : (pv : Any) → Alike (pvremove pv) (pvremove pv)
  unfolding pvremove
  Alike-pvremove pv = search (secret_rules, Alike-first, Alike-lvm_do, Alike-scan_all)

  pub Alike-vgcreate :
      (name : Text) (members : List Any) → Alike (vgcreate name members) (vgcreate name members)
  unfolding vgcreate
  Alike-vgcreate name members = search (secret_rules, Alike-lvm_do)

  Alike-complete_vg : (vg : Vg) → Alike (complete_vg vg) (complete_vg vg)
  unfolding complete_vg
  Alike-complete_vg vg = search (secret_rules, Alike-pvs, Alike-lvs)

  Alike-collect_vgs : (lines : List Text) → Alike (collect_vgs lines) (collect_vgs lines)
  unfolding collect_vgs
  Alike-collect_vgs [] = search secret_rules
  Alike-collect_vgs (line ∷ lines) = Alike-if (line == []) _ _ _ _ (Alike-collect_vgs lines) (
      Alike-bind _ _ _ _ (Alike-lift _) (λ parsed.
        Alike-bind _ _ _ _ (Alike-complete_vg parsed)
          (λ vg. Alike-bind _ _ _ _ (Alike-collect_vgs lines) (λ vgs. Alike-pure (vg ∷ vgs)))))

  pub Alike-vgs : (filter : List Text) → Alike (vgs filter) (vgs filter)
  unfolding vgs
  Alike-vgs filter = search (secret_rules, Alike-lvm_run, Alike-collect_vgs)

  pub Alike-vgrename :
      (old_name new_name : Text) → Alike (vgrename old_name new_name) (vgrename old_name new_name)
  unfolding vgrename
  Alike-vgrename old_name new_name = search (secret_rules, Alike-lvm_do, Alike-vgs, Alike-first)

  Alike-change_members :
      (verb : Text) (vg : Any) (members : List Any)
      → Alike (change_members verb vg members) (change_members verb vg members)
  unfolding change_members
  Alike-change_members verb vg [] = search secret_rules
  Alike-change_members verb vg (member ∷ members) = search (secret_rules, Alike-lvm_do)

  pub Alike-vgextend :
      (vg : Any) (members : List Any) → Alike (vgextend vg members) (vgextend vg members)
  unfolding vgextend
  Alike-vgextend vg members = Alike-change_members (text "vgextend") vg members

  pub Alike-vgreduce :
      (vg : Any) (members : List Any) → Alike (vgreduce vg members) (vgreduce vg members)
  unfolding vgreduce
  Alike-vgreduce vg members = Alike-change_members (text "vgreduce") vg members

  pub Alike-vgremove : (vg : Any) → Alike (vgremove vg) (vgremove vg)
  unfolding vgremove
  Alike-vgremove vg = search (secret_rules, Alike-lvm_do)

  pub Alike-lvcreate :
      (name : Text) (vg : Any) (lv_type : Text) (size : Any)
      → Alike (lvcreate name vg lv_type size) (lvcreate name vg lv_type size)
  unfolding lvcreate
  Alike-lvcreate name vg lv_type size = search (secret_rules, Alike-lvm_do)

  pub Alike-lv_thin_create :
      (name : Text) (vg pool : Any) (size : P.F64)
      → Alike (lv_thin_create name vg pool size) (lv_thin_create name vg pool size)
  unfolding lv_thin_create
  Alike-lv_thin_create name vg pool size = search (secret_rules, Alike-lvm_do)

  pub Alike-lvrename :
      (old_name new_name : Text) (vg : Any)
      → Alike (lvrename old_name new_name vg) (lvrename old_name new_name vg)
  unfolding lvrename
  Alike-lvrename old_name new_name vg = search (secret_rules, Alike-lvm_do, Alike-lvs, Alike-first)

  pub Alike-lvremove : (lv : Any) → Alike (lvremove lv) (lvremove lv)
  unfolding lvremove
  Alike-lvremove lv = search (secret_rules, Alike-lvm_do)

  pub Alike-make_thin_pool :
      (metadata pool : Any) → Alike (make_thin_pool metadata pool) (make_thin_pool metadata pool)
  unfolding make_thin_pool
  Alike-make_thin_pool metadata pool = search (secret_rules, Alike-lvm_do)
