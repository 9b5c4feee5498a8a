-- ===== src/Lvm/Commands.antt =====
-- core/lvm/lvm.go: the commands of LVM.
pub mod Emits
pub mod Groups
pub mod Secrets
use albius.Base.{
  Option, none, some, List, [], ◌∷◌, Text, text, format, join, split, trim_space, format_int, ◌==◌,
  list_eq, nat_eq, if◌then◌else◌,
}
use albius.Machine.{
  Platform, shell, Completed, Exit, success, exited, not_started, message, wrap, Outcome, ok, err,
  index_out_of_range, Go, pure, fail, throw, ◌>>=◌, ◌>>◌, handling, attempt, run_process, lift,
}
use albius.Lvm.Types.{
  Pv, Vg, Lv, Any, string, int, float, extract_paths_from_pvs, extract_name_from_vg,
  extract_name_from_lv, extract_name_from_pool,
}
use albius.Lvm.Reports.{parse_pvs, parse_lvs, parse_vg, pvs_in, lvs_in}

module _ ⦃P : Platform⦄ where
  lvm_result : Completed → Exit → Go Text
  lvm_result done success = pure (trim_space done.stdout)
  lvm_result done (exited n) =
      fail (message (format (text "lvm.RunCommand: \n" ∷ done.stderr ∷ [])))
  lvm_result done (not_started why) = fail (message why)

  -- RunCommand of the package lvm
  unfoldable pub lvm_run : List Text → Go Text
  unfolding lvm_result
  lvm_run pieces = do done ← run_process (shell [] (format pieces)); lvm_result done done.exit

  -- A command whose output is not used.
  unfoldable pub lvm_do : List Text → Go (Unit {0})
  lvm_do pieces = do lvm_run pieces; pure tt

  -- pvs[0]
  unfoldable pub first : {A : Type 0} → List A → Go A
  first [] = throw index_out_of_range
  first (a ∷ as') = pure a

  -- pvscanCache; its callers drop the error
  unfoldable pub pvscan_cache : Text → Go (Unit {0})
  pvscan_cache path =
      handling (wrap (text "pvscanCache: ")) (lvm_do (text "pvscan --cache " ∷ path ∷ []))

  -- Pvcreate
  unfoldable pub pvcreate : Text → Go (Unit {0})
  pvcreate path = do
    handling (wrap (text "pvcreate: ")) (lvm_do (text "pvcreate -y " ∷ path ∷ []))
    attempt (pvscan_cache path)
    pure tt

  -- Pvs
  unfoldable pub pvs : List Text → Go (List Pv)
  pvs filter = do
    out ← handling (wrap (text "pvs: ")) (
        lvm_run (
          text "pvs --noheadings --units m --nosuffix --separator , "
          ∷ join filter (text " ")
          ∷ []))
    lift (parse_pvs (split b'\n' out))

  unfoldable pub size_option : Option P.F64 → Text
  size_option none = []
  size_option (some f) = format (text "--setphysicalvolumesize " ∷ P.format_f f ∷ text "m" ∷ [])

  -- Pvresize
  unfoldable pub pvresize : Any → Option P.F64 → Go (Unit {0})
  pvresize pv size = handling (wrap (text "pvresize: ")) (do
    paths ← lift (extract_paths_from_pvs (pv ∷ []))
    path ← first paths
    lvm_do (text "pvresize -y " ∷ size_option size ∷ text " " ∷ path ∷ []))

  unfoldable pub scan_all : List Text → Go (Unit {0})
  scan_all [] = pure tt
  scan_all (path ∷ paths) = do attempt (pvscan_cache path); scan_all paths

  -- Pvremove
  unfoldable pub pvremove : Any → Go (Unit {0})
  pvremove pv = do
    paths ← handling (wrap (text "pvremove: ")) (lift (extract_paths_from_pvs (pv ∷ [])))
    path ← first paths
    handling (wrap (text "pvremove: ")) (lvm_do (text "pvremove -y " ∷ path ∷ []))
    scan_all paths

  -- Vgcreate
  unfoldable pub vgcreate : Text → List Any → Go (Unit {0})
  vgcreate name members = handling (wrap (text "vgcreate: ")) (do
    paths ← lift (extract_paths_from_pvs members)
    lvm_do (text "vgcreate " ∷ name ∷ text " " ∷ join paths (text " ") ∷ []))

  -- Lvs
  unfoldable pub lvs : List Text → Go (List Lv)
  lvs filter = do
    out ← handling (wrap (text "lvs: ")) (
        lvm_run (
          text "lvs --noheadings --units m --nosuffix --separator , "
          ∷ join filter (text " ")
          ∷ []))
    lift (parse_lvs (split b'\n' out))

  -- The PVs and the LVs of a VG are asked for anew for each line.
  complete_vg : Vg → Go Vg
  complete_vg vg = do
    all_pvs ← handling (wrap (text "vgs: could not get list of pvs: ")) (pvs [])
    all_lvs ← handling (wrap (text "vgs: could not get list of lvs: ")) (lvs [])
    pure (record vg { pvs = pvs_in vg.name all_pvs; lvs = lvs_in vg.name all_lvs })

  unfoldable pub collect_vgs : List Text → Go (List Vg)
  unfolding complete_vg
  collect_vgs [] = pure []
  collect_vgs (line ∷ lines) =
      let rest = collect_vgs lines in
      if line == [] then rest else do
        parsed ← lift (parse_vg (split b',' line))
        vg ← complete_vg parsed
        vgs ← rest
        pure (vg ∷ vgs)

  -- Vgs
  unfoldable pub vgs : List Text → Go (List Vg)
  vgs filter = do
    out ← handling (wrap (text "vgs: ")) (
        lvm_run (
          text "vgs --noheadings --units m --nosuffix --separator , "
          ∷ join filter (text " ")
          ∷ []))
    collect_vgs (split b'\n' out)

  -- Vgrename
  unfoldable pub vgrename : Text → Text → Go Vg
  vgrename old_name new_name = handling (wrap (text "vgrename: ")) (do
    lvm_do (text "vgrename " ∷ old_name ∷ text " " ∷ new_name ∷ [])
    found ← vgs (new_name ∷ [])
    first found)

  -- The members of `Vgextend` and `Vgreduce`, of which there must be one.
  unfoldable pub change_members : Text → Any → List Any → Go (Unit {0})
  change_members verb vg [] = fail (message (format (verb ∷ text ": No PVs were provided" ∷ [])))
  change_members verb vg (member ∷ members) = handling (wrap (format (verb ∷ text ": " ∷ []))) (do
    name ← lift (extract_name_from_vg vg)
    paths ← lift (extract_paths_from_pvs (member ∷ members))
    lvm_do (verb ∷ text " " ∷ name ∷ text " " ∷ join paths (text " ") ∷ []))

  unfoldable pub vgextend : Any → List Any → Go (Unit {0})
  unfolding change_members
  vgextend = change_members (text "vgextend")

  unfoldable pub vgreduce : Any → List Any → Go (Unit {0})
  unfolding change_members
  vgreduce = change_members (text "vgreduce")

  -- Vgremove
  unfoldable pub vgremove : Any → Go (Unit {0})
  vgremove vg =
      handling (wrap (text "vgremove: "))
        (do name ← lift (extract_name_from_vg vg); lvm_do (text "vgremove -y " ∷ name ∷ []))

  lv_size_option : Any → Outcome Text
  lv_size_option (string size) = ok (format (text "-l" ∷ size ∷ []))
  lv_size_option (float f) = ok (format (text "-L " ∷ P.format_2f f ∷ text "m" ∷ []))
  lv_size_option (int n) = ok (format (text "-L " ∷ format_int n ∷ text "m" ∷ []))
  lv_size_option _ = err (message (text "expected either string, int, or float64 for size"))

  -- Lvcreate. The error for a size of another type also names that type.
  unfoldable pub lvcreate : Text → Any → Text → Any → Go (Unit {0})
  unfolding lv_size_option
  lvcreate name vg lv_type size = handling (wrap (text "lvcreate: ")) (do
    vg_name ← lift (extract_name_from_vg vg)
    option ← lift (lv_size_option size)
    lvm_do (
        text "lvcreate -y --type "
        ∷ lv_type
        ∷ text " "
        ∷ option
        ∷ text " "
        ∷ vg_name
        ∷ text " -n "
        ∷ name
        ∷ []))

  -- LvThinCreate
  unfoldable pub lv_thin_create : Text → Any → Any → P.F64 → Go (Unit {0})
  lv_thin_create name vg pool size = handling (wrap (text "lvmThinCreate: ")) (do
    vg_name ← lift (extract_name_from_vg vg)
    pool_name ← lift (extract_name_from_pool pool)
    lvm_do (
        text "lvcreate -y -n "
        ∷ name
        ∷ text " -V "
        ∷ P.format_2f size
        ∷ text "m --thinpool "
        ∷ pool_name
        ∷ text " "
        ∷ vg_name
        ∷ []))

  -- Lvrename
  unfoldable pub lvrename : Text → Text → Any → Go Lv
  lvrename old_name new_name vg = handling (wrap (text "lvrename: ")) (do
    vg_name ← lift (extract_name_from_vg vg)
    lvm_do (text "lvrename " ∷ vg_name ∷ text " " ∷ old_name ∷ text " " ∷ new_name ∷ [])
    found ← lvs (format (vg_name ∷ text "/" ∷ new_name ∷ []) ∷ [])
    first found)

  -- Lvremove
  unfoldable pub lvremove : Any → Go (Unit {0})
  lvremove lv =
      handling (wrap (text "lvremove: "))
        (do name ← lift (extract_name_from_lv lv); lvm_do (text "lvremove -y " ∷ name ∷ []))

  -- MakeThinPool
  unfoldable pub make_thin_pool : Any → Any → Go (Unit {0})
  make_thin_pool pool_metadata pool = do
    metadata_name ← lift (extract_name_from_lv pool_metadata)
    pool_name ← lift (extract_name_from_lv pool)
    lvm_do (
        text "lvconvert -y --type thin-pool --poolmetadata "
        ∷ metadata_name
        ∷ text " "
        ∷ pool_name
        ∷ [])

  lv_full_name : Text → List Text → Text
  lv_full_name name [] = name
  lv_full_name name (lv_name ∷ rest) = format (name ∷ text "/" ∷ lv_name ∷ [])

  -- FindPv, FindVg and FindLv
  unfoldable pub find_pv : Text → Go Pv
  find_pv path = do found ← handling (wrap (text "findPv: ")) (pvs (path ∷ [])); first found

  unfoldable pub find_vg : Text → Go Vg
  find_vg name = do found ← handling (wrap (text "findVg: ")) (vgs (name ∷ [])); first found

  unfoldable pub find_lv : Text → List Text → Go Lv
  unfolding lv_full_name
  find_lv name lv_name = do
    found ← handling (wrap (text "findLv: ")) (lvs (lv_full_name name lv_name ∷ []))
    first found
