-- ===== src/Lvm/Commands/Groups.antt =====
-- Which PVs and LVs Vgs of core/lvm/lvm.go gives a VG.
use albius.Base.{
  ◌≡◌, ◌≢◌, ap, sym, ◌∙◌, ◌↔◌, inl, inr, Bool-cases, List, [], ◌∷◌, Text, All, Among, ◌==◌, ==_refl,
  list_eq, nat_eq, list_beq_sound, if◌then◌else◌,
}
use albius.Machine.{Platform, World, ok, pure}
use albius.Machine.Returns.{ok-injective, bind-returns, handling-returns}
use albius.Machine.Emits.{Gave}
use albius.Lvm.Types.{Pv, Lv, Vg}
use albius.Lvm.Reports.{pvs_in, lvs_in}
use albius.Lvm.Commands.{pvs, lvs, complete_vg, collect_vgs, vgs}

-- One step of a filter by name: the members of the result are the members with the name.
module _ {A : Type 0} (named : A → Text) (name : Text) (other : A) (all kept : List A) (x : A)
    (rest : Among x kept ↔ (Among x all × (named x ≡ name))) where
  added : named other ≡ name → Among x (other ∷ kept) ↔ (Among x (other ∷ all) × (named x ≡ name))
  added e = (
    (λ h. elim h [
      | inl same ↦ (inl same, ap named same ∙ e)
      | inr among ↦ let (there, same) = rest.0 among in (inr there, same)
    ]),
    (λ h. elim h.0 [ inl same ↦ inl same | inr among ↦ inr (rest.1 (among, h.1)) ]),
  )

  left_out : named other ≢ name → Among x kept ↔ (Among x (other ∷ all) × (named x ≡ name))
  left_out d = (
    (λ h. let (there, same) = rest.0 h in (inr there, same)),
    (λ h. elim h.0 [
      | inl same ↦ absurd (d (sym (ap named same) ∙ h.1))
      | inr among ↦ rest.1 (among, h.1)
    ]),
  )

  filtered-Among :
      Among x (if named other == name then other ∷ kept else kept)
      ↔ (Among x (other ∷ all) × (named x ≡ name))
  filtered-Among = elim (Bool-cases (named other == name)) [
    | inl e ↦ rw e (added (list_beq_sound _ _ e))
    | inr e ↦ rw e (left_out (λ same. cc (e, same, ==_refl name)))
  ]

module _ ⦃P : Platform⦄ where
  -- The PVs and the LVs are those of the VG's name in lists that Pvs and Lvs returned.
  pub record IsComplete (vg : Vg) : Type 0 where
    pub all_pvs : List Pv
    pub all_lvs : List Lv
    pub pvs_listed : Gave (pvs []) all_pvs
    pub lvs_listed : Gave (lvs []) all_lvs
    pub of_pvs : (pv : Pv) → Among pv vg.pvs ↔ (Among pv all_pvs × (pv.vg_name ≡ vg.name))
    pub of_lvs : (lv : Lv) → Among lv vg.lvs ↔ (Among lv all_lvs × (lv.vg_name ≡ vg.name))

  pvs_in-Among :
      (name : Text) (all : List Pv) (pv : Pv)
      → Among pv (pvs_in name all) ↔ (Among pv all × (pv.vg_name ≡ name))
  unfolding pvs_in
  pvs_in-Among name [] pv = ((λ h. absurd h), (λ h. h.0))
  pvs_in-Among name (other ∷ all) pv =
      filtered-Among (λ x. x.vg_name) name other all (pvs_in name all) pv (pvs_in-Among name all pv)

  lvs_in-Among :
      (name : Text) (all : List Lv) (lv : Lv)
      → Among lv (lvs_in name all) ↔ (Among lv all × (lv.vg_name ≡ name))
  unfolding lvs_in
  lvs_in-Among name [] lv = ((λ h. absurd h), (λ h. h.0))
  lvs_in-Among name (other ∷ all) lv =
      filtered-Among (λ x. x.vg_name) name other all (lvs_in name all) lv (lvs_in-Among name all lv)

  complete_vg-IsComplete :
      (parsed : Vg) (w : World) (vg : Vg) → (complete_vg parsed w).0 ≡ ok vg → IsComplete vg
  unfolding complete_vg pure
  complete_vg-IsComplete parsed w vg h =
      let (all_pvs, h1, h2) = bind-returns _ _ w h in
      let (all_lvs, h3, h4) = bind-returns _ _ _ h2 in
      rw (← ok-injective h4) (record {
        all_pvs = all_pvs;
        all_lvs = all_lvs;
        pvs_listed = (w, handling-returns _ _ w h1);
        lvs_listed = (_, handling-returns _ _ _ h3);
        of_pvs = pvs_in-Among parsed.name all_pvs;
        of_lvs = lvs_in-Among parsed.name all_lvs;
      })

  collect_vgs-IsComplete :
      (lines : List Text) (w : World) (groups : List Vg)
      → (collect_vgs lines w).0 ≡ ok groups
      → All IsComplete groups
  unfolding collect_vgs pure
  collect_vgs-IsComplete [] w groups h = rw (← ok-injective h) tt
  collect_vgs-IsComplete (line ∷ lines) w groups h = elim (Bool-cases (line == [])) [
    | inl e ↦ collect_vgs-IsComplete lines w groups (rw (collect_vgs, e) at h)
    | inr e ↦
        let (parsed, h1, h2) = bind-returns _ _ w (rw (collect_vgs, e) at h) in
        let (vg, h3, h4) = bind-returns _ _ _ h2 in
        let (rest, h5, h6) = bind-returns _ _ _ h4 in
        rw (← ok-injective h6)
          (complete_vg-IsComplete parsed _ vg h3, collect_vgs-IsComplete lines _ rest h5)
  ]

  -- When Vgs returns groups, whatever the filter, the PVs and LVs of each are those, of the lists
  -- that Pvs and Lvs returned on the way, whose group has its name, and no others.
  pub vgs-IsComplete :
      (filter : List Text) (w : World) (groups : List Vg)
      → (vgs filter w).0 ≡ ok groups
      → All IsComplete groups
  unfolding vgs
  vgs-IsComplete filter w groups h =
      let (out, h1, h2) = bind-returns _ _ w h in collect_vgs-IsComplete _ _ groups h2
