-- ===== src/Lvm/Reports.antt =====
-- The lines of `pvs`, `vgs` and `lvs`, as `Pvs`, `Vgs` and `Lvs` of core/lvm/lvm.go read them.
pub mod RoundTrip
use albius.Base.{
  ℕ, zero, Bool, true, false, Option, none, some, List, [], ◌∷◌, Text, text, format, has_prefix,
  split, get_elem?, ◌==◌, list_eq, nat_eq, if◌then◌else◌,
}
use albius.Machine.{Platform, Error, message, wrap}
use albius.Machine.Results.{Outcome, ok, err, ◌>>=◌, index, or_err}
use albius.Lvm.Attrs.{LvAttrs, parse_pv_attrs, parse_vg_attrs, parse_lv_attrs}
use albius.Lvm.Types.{Pv, Vg, Lv}

not_float : Text → Text → Error
not_float command value =
    message (format (command ∷ text ": could not convert " ∷ value ∷ text " to float" ∷ []))

unfoldable pub wrapped : {A : Type 0} → Text → Outcome A → Outcome A
wrapped prefix (err e) = err (wrap prefix e)
wrapped prefix r = r

module _ ⦃P : Platform⦄ where
  -- strconv.ParseFloat(value, 64), and the field that the error names
  float_field : Text → Text → Text → Outcome P.F64
  unfolding not_float
  float_field command value named = or_err (P.parse_float value) (not_float command named)

  -- One line of `pvs`
  unfoldable pub parse_pv : List Text → Outcome Pv
  unfolding float_field wrapped
  parse_pv vals = do
    v3 ← index vals 3
    attr ← wrapped (text "pvs: ") (parse_pv_attrs v3)
    v4 ← index vals 4
    size ← float_field (text "pvs") v4 v4
    v5 ← index vals 5
    free ← float_field (text "pvs") v5 v5
    v0 ← index vals 0
    v1 ← index vals 1
    v2 ← index vals 2
    ok (record { path = v0; vg_name = v1; pv_fmt = v2; attr = attr; size = size; free = free })

  -- The loop over the lines: one that does not begin with a slash is skipped.
  unfoldable pub parse_pvs : List Text → Outcome (List Pv)
  parse_pvs [] = ok []
  parse_pvs (line ∷ lines) =
      let rest = parse_pvs lines in
      if has_prefix line (text "/")
      then (do pv ← parse_pv (split b',' line); pvs ← rest; ok (pv ∷ pvs))
      else rest

  lv_size : List Text → Option P.F64 → Outcome P.F64
  unfolding not_float
  lv_size vals (some size) = ok size
  lv_size vals none = do v5 ← index vals 5; err (not_float (text "lvs") v5)

  -- One line of `lvs`
  unfoldable pub parse_lv : List Text → Outcome Lv
  unfolding lv_size wrapped
  parse_lv vals = do
    v2 ← index vals 2
    attrs ← wrapped (text "lvs: ") (parse_lv_attrs v2)
    v3 ← index vals 3
    size ← lv_size vals (P.parse_float v3)
    v0 ← index vals 0
    v1 ← index vals 1
    v4 ← index vals 4
    ok (record {
      name = v0;
      vg_name = v1;
      pool = v4;
      attr_vol_type = attrs.vol_type;
      attr_permissions = attrs.permissions;
      attr_alloc_policy = attrs.alloc_policy;
      attr_fixed = attrs.fixed;
      attr_state = attrs.state;
      attr_device = attrs.device;
      attr_target_type = attrs.target_type;
      attr_blocks = attrs.blocks;
      attr_health = attrs.health;
      attr_skip = attrs.skip;
      size = size;
    })

  -- The loop over the lines: an empty one is skipped.
  unfoldable pub parse_lvs : List Text → Outcome (List Lv)
  parse_lvs [] = ok []
  parse_lvs (line ∷ lines) =
      let rest = parse_lvs lines in
      if line == [] then rest else do lv ← parse_lv (split b',' line); lvs ← rest; ok (lv ∷ lvs)

  -- One line of `vgs`, before its PVs and LVs are looked up
  unfoldable pub parse_vg : List Text → Outcome Vg
  unfolding wrapped not_float
  parse_vg vals = do
    v4 ← index vals 4
    attr ← wrapped (text "vgs: ") (parse_vg_attrs v4)
    v5 ← index vals 5
    size ← or_err (P.parse_float v5) (not_float (text "vgs") v4)
    v6 ← index vals 6
    free ← or_err (P.parse_float v6) (not_float (text "vgs") v5)
    v0 ← index vals 0
    ok (record { name = v0; pvs = []; lvs = []; attr = attr; size = size; free = free })

  unfoldable pub pvs_in : Text → List Pv → List Pv
  pvs_in name [] = []
  pvs_in name (pv ∷ pvs) =
      let rest = pvs_in name pvs in if pv.vg_name == name then pv ∷ rest else rest

  unfoldable pub lvs_in : Text → List Lv → List Lv
  lvs_in name [] = []
  lvs_in name (lv ∷ lvs) =
      let rest = lvs_in name lvs in if lv.vg_name == name then lv ∷ rest else rest
