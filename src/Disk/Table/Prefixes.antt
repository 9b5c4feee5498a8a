-- ===== src/Disk/Table/Prefixes.antt =====
-- Which VGs LabelDisk of core/disk/disk.go takes for VGs of the disk.
use albius.Base.{
  ◌≡◌, refl, ◌∙◌, inl, inr, true, some, Bool-cases, Option-cases, List, [], ◌∷◌, ◌++◌, append_assoc,
  Text, text, Among, has_prefix, contains_text, ==_refl, nat_eq,
}
use albius.Machine.{Platform, Event, ran, shell, World, Go, ◌>>=◌}
use albius.Machine.Emits.{Emits, Emits-bind, Emits-handling, Emits-pure, Emits-continue}
use albius.Lvm.Types.{Pv, Vg}
use albius.Lvm.Commands.Emits.{vgremove-log, vgremove-Emits}
use albius.Disk.Table.{first_pv, remove_vgs}

has_prefix-append : (disk rest : Text) → has_prefix (disk ++ rest) disk ≡ true
unfolding has_prefix
has_prefix-append [] rest = refl
has_prefix-append (c ∷ disk) rest = rw (==_refl c, has_prefix-append disk rest)

contains_text_of_prefix : (s p : Text) → has_prefix s p ≡ true → contains_text s p ≡ true
unfolding contains_text
contains_text_of_prefix [] p h = h
contains_text_of_prefix (c ∷ s) p h = rw h

module _ ⦃P : Platform⦄ where
  first_pv-found :
      (disk : Text) (pvs : List Pv) (pv : Pv)
      → Among pv pvs
      → contains_text pv.path disk ≡ true
      → (found : Pv) × (first_pv disk pvs ≡ some found)
  unfolding first_pv
  first_pv-found disk [] pv among h = absurd among
  first_pv-found disk (other ∷ pvs) pv among h = elim (Bool-cases (contains_text other.path disk)) [
    | inl e ↦ (other, rw (first_pv, e))
    | inr e ↦ elim among [
      | inl same ↦ cc (e, h, same)
      | inr later ↦
          let (found, e') = first_pv-found disk pvs pv later h in (found, rw (first_pv, e) e')
    ]
  ]

  -- Whatever comes behind a call only adds to the log.
  bind-log :
      {A B : Type 0} (m : Go A) (f : A → Go B) (w : World) (es : List Event)
      → (m w).1.log ≡ w.log ++ es
      → ((a : A) → Emits (λ e. Unit {0}) (f a))
      → (later : List Event) × (((m >>= f) w).1.log ≡ w.log ++ (es ++ later))
  unfolding ◌>>=◌
  bind-log m f w es h hf =
      let (later, _, e) = (Emits-continue (m w).0 f hf).at (m w).1 in
      (later, e ∙ (rw (h, append_assoc)))

  remove_vgs-Emits :
      (disk : Text) (groups : List Vg) → Emits (λ e. Unit {0}) (remove_vgs disk groups)
  unfolding remove_vgs
  remove_vgs-Emits disk [] = Emits-pure []
  remove_vgs-Emits disk (vg ∷ groups) = elim (Option-cases (first_pv disk vg.pvs)) [
    | inl e ↦ rw (remove_vgs, e) (remove_vgs-Emits disk groups)
    | inr (pv, e) ↦
        rw (remove_vgs, e)
          (Emits-bind _ _ (Emits-handling _ _ (vgremove-Emits vg tt))
            (λ done. Emits-bind _ _ (remove_vgs-Emits disk groups) (λ pvs. Emits-pure (pv ∷ pvs))))
  ]

  -- A VG is removed for a disk when one of its PVs, in whatever place, has a path that begins with
  -- the path of the disk, whatever follows, another letter too, by which the PV is on another disk:
  -- to remove this VG is the first thing that is done for a list of VGs that begins with it.
  pub remove_vgs-append :
      (disk rest : Text) (vg : Vg) (groups : List Vg) (pv : Pv) (w : World)
      → Among pv vg.pvs
      → pv.path ≡ disk ++ rest
      → (es : List Event) × ((remove_vgs disk (vg ∷ groups) w).1.log
          ≡ w.log ++ (ran (shell [] (text "vgremove -y " ++ vg.name)) ∷ es))
  unfolding remove_vgs
  remove_vgs-append disk rest vg groups pv w among e =
      let contained = contains_text_of_prefix (disk ++ rest) disk (has_prefix-append disk rest) in
      let (found, e') = first_pv-found disk vg.pvs pv among (rw e contained) in
      rw (remove_vgs, e')
        (bind-log _ _ w (ran (shell [] (text "vgremove -y " ++ vg.name)) ∷ []) (vgremove-log _ vg w)
          (λ done. Emits-bind _ _ (remove_vgs-Emits disk groups) (λ pvs. Emits-pure (found ∷ pvs))))
