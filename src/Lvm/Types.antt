-- ===== src/Lvm/Types.antt =====
-- The structs of core/lvm, and the values that its functions take as `interface{}`.
use albius.Base.{ℕ, List, [], ◌∷◌, Text, text, format, ℤ}
use albius.Machine.{Platform, message}
use albius.Machine.Results.{Outcome, ok, err, ◌>>=◌}

module _ ⦃P : Platform⦄ where
  pub record Pv : Type 0 where
    pub path : Text
    pub vg_name : Text
    pub pv_fmt : Text
    pub attr : ℕ
    pub size : P.F64
    pub free : P.F64

  pub record Lv : Type 0 where
    pub name : Text
    pub vg_name : Text
    pub pool : Text
    pub attr_vol_type : ℕ
    pub attr_permissions : ℕ
    pub attr_alloc_policy : ℕ
    pub attr_fixed : ℕ
    pub attr_state : ℕ
    pub attr_device : ℕ
    pub attr_target_type : ℕ
    pub attr_blocks : ℕ
    pub attr_health : ℕ
    pub attr_skip : ℕ
    pub size : P.F64

  pub record Vg : Type 0 where
    pub name : Text
    pub pvs : List Pv
    pub lvs : List Lv
    pub attr : ℕ
    pub size : P.F64
    pub free : P.F64

  -- A value of any type, as far as the functions of the package tell types apart.
  pub data Any : Type 0 where
    string : Text → Any
    int : ℤ → Any
    float : P.F64 → Any
    pv_pointer : Pv → Any
    vg_pointer : Vg → Any
    lv_pointer : Lv → Any
    other : Any

  -- extractPathsFromPvs
  unfoldable pub extract_paths_from_pvs : List Any → Outcome (List Text)
  extract_paths_from_pvs [] = ok []
  extract_paths_from_pvs (string path ∷ pvs) = do
    paths ← extract_paths_from_pvs pvs
    ok (path ∷ paths)
  extract_paths_from_pvs (pv_pointer pv ∷ pvs) = do
    paths ← extract_paths_from_pvs pvs
    ok (pv.path ∷ paths)
  extract_paths_from_pvs (_ ∷ pvs) = err (
      message (
        text
          "invalid type for pv. Must be either a string with the PV's path or a pointer to a PV struct"))

  -- extractNameFromVg
  unfoldable pub extract_name_from_vg : Any → Outcome Text
  extract_name_from_vg (string name) = ok name
  extract_name_from_vg (vg_pointer vg) = ok vg.name
  extract_name_from_vg _ = err (
      message (
        text
          "invalid type for vg. Must be either a string with the VG's name or a pointer to a VG struct"))

  -- extractNameFromLv
  unfoldable pub extract_name_from_lv : Any → Outcome Text
  extract_name_from_lv (string name) = ok name
  extract_name_from_lv (lv_pointer lv) = ok (format (lv.vg_name ∷ text "/" ∷ lv.name ∷ []))
  extract_name_from_lv _ = err (
      message (
        text
          "invalid type for lv. Must be either a string with the LV's path ([group_name]/[lv_name]) or a pointer to a LV struct"))

  -- extractNameFromPool
  unfoldable pub extract_name_from_pool : Any → Outcome Text
  extract_name_from_pool (string name) = ok name
  extract_name_from_pool (lv_pointer lv) = ok lv.name
  extract_name_from_pool _ = err (
      message (
        text
          "invalid type for pool. Must be either a string with the pool's name or a pointer to a LV struct"))
