-- ===== src/Lvm/Commands/Emits.antt =====
-- The events of the commands of LVM (core/lvm/lvm.go).
use albius.Base.{◌≡◌, refl, ◌++◌, append-nil, List, [], ◌∷◌, Text, text, format, join}
use albius.Machine.{
  Platform, Event, ran, shell, Completed, Exit, success, exited, not_started, wrap, ◌>>=◌, ◌>>◌,
  handling, lift, pure, fail, Outcome, ok, err, panic, hang, run_process, perform, continue, World,
  Error,
}
use albius.Machine.Emits.{Emits, Emits-if, Emits-bind, Emits-lift, Emits-pure, emit_rules}
use albius.Lvm.Types.{Pv, Vg, pv_pointer, vg_pointer, extract_paths_from_pvs, extract_name_from_vg}
use albius.Lvm.Commands.{
  lvm_result, lvm_run, lvm_do, first, pvscan_cache, pvs, lvs, vgs, complete_vg, collect_vgs,
  scan_all, pvremove, vgremove,
}

unfoldable pub pvs_command : Text → Text
pvs_command filter =
    format (text "pvs --noheadings --units m --nosuffix --separator , " ∷ filter ∷ [])

unfoldable pub lvs_command : Text → Text
lvs_command filter =
    format (text "lvs --noheadings --units m --nosuffix --separator , " ∷ filter ∷ [])

unfoldable pub vgs_command : Text → Text
vgs_command filter =
    format (text "vgs --noheadings --units m --nosuffix --separator , " ∷ filter ∷ [])

module _ ⦃P : Platform⦄ where
  -- The removal of a VG or PV that a pointer refers to
  vgremove-vg_pointer :
      (vg : Vg)
      → vgremove (vg_pointer vg)
        ≡ handling (wrap (text "vgremove: ")) (lvm_do (text "vgremove -y " ∷ vg.name ∷ []))
  unfolding vgremove lift extract_name_from_vg ◌>>=◌
  vgremove-vg_pointer vg = refl

  pvremove-pv_pointer :
      (pv : Pv)
      → pvremove (pv_pointer pv) ≡ (
          handling (wrap (text "pvremove: ")) (lvm_do (text "pvremove -y " ∷ pv.path ∷ []))
          >> scan_all (pv.path ∷ []))
  unfolding pvremove lift extract_paths_from_pvs first handling ◌>>=◌ pure
  pvremove-pv_pointer pv = refl

  lvm_result-world : (done : Completed) (exit : Exit) (w : World) → (lvm_result done exit w).1 ≡ w
  unfolding lvm_result pure fail
  lvm_result-world done success w = refl
  lvm_result-world done (exited n) w = refl
  lvm_result-world done (not_started why) w = refl

  continue-pure-world : (r : Outcome Text) (w : World) → (continue r (λ _. pure tt) w).1 ≡ w
  unfolding pure
  continue-pure-world (ok a) w = refl
  continue-pure-world (err e) w = refl
  continue-pure-world (panic p) w = refl
  continue-pure-world hang w = refl

  -- What the removal of a VG does, whether it succeeds or fails
  pub vgremove-log :
      (h : Error → Error) (vg : Vg) (w : World)
      → (handling h (vgremove (vg_pointer vg)) w).1.log
        ≡ w.log ++ (ran (shell [] (text "vgremove -y " ++ vg.name)) ∷ [])
  unfolding handling lvm_do lvm_run run_process perform ◌>>=◌ format text
  vgremove-log h vg w =
      rw (vgremove-vg_pointer, append-nil, continue-pure-world, lvm_result-world) refl

module _ ⦃P : Platform⦄ {E : Event → Type 0} where
  lvm_result-Emits : (done : Completed) (exit : Exit) → Emits E (lvm_result done exit)
  unfolding lvm_result
  lvm_result-Emits done success = search emit_rules
  lvm_result-Emits done (exited n) = search emit_rules
  lvm_result-Emits done (not_started why) = search emit_rules

  pub lvm_run-Emits :
      (pieces : List Text) → E (ran (shell [] (format pieces))) → Emits E (lvm_run pieces)
  unfolding lvm_run
  lvm_run-Emits pieces h = search (emit_rules, lvm_result-Emits)

  pub lvm_do-Emits :
      (pieces : List Text) → E (ran (shell [] (format pieces))) → Emits E (lvm_do pieces)
  unfolding lvm_do
  lvm_do-Emits pieces h = search (emit_rules, lvm_run-Emits)

  pub pvs-Emits :
      (filter : List Text)
      → E (ran (shell [] (pvs_command (join filter (text " ")))))
      → Emits E (pvs filter)
  unfolding pvs pvs_command
  pvs-Emits filter h = search (emit_rules, lvm_run-Emits)

  pub lvs-Emits :
      (filter : List Text)
      → E (ran (shell [] (lvs_command (join filter (text " ")))))
      → Emits E (lvs filter)
  unfolding lvs lvs_command
  lvs-Emits filter h = search (emit_rules, lvm_run-Emits)

  complete_vg-Emits :
      (vg : Vg)
      → E (ran (shell [] (pvs_command (join [] (text " ")))))
      → E (ran (shell [] (lvs_command (join [] (text " ")))))
      → Emits E (complete_vg vg)
  unfolding complete_vg
  complete_vg-Emits vg hp hl = search (emit_rules, pvs-Emits, lvs-Emits)

  collect_vgs-Emits :
      (lines : List Text)
      → E (ran (shell [] (pvs_command (join [] (text " ")))))
      → E (ran (shell [] (lvs_command (join [] (text " ")))))
      → Emits E (collect_vgs lines)
  unfolding collect_vgs
  collect_vgs-Emits [] hp hl = search emit_rules
  collect_vgs-Emits (line ∷ lines) hp hl =
      let rest = collect_vgs-Emits lines hp hl in
      Emits-if _ _ _ rest (
        Emits-bind _ _ (Emits-lift _) (λ parsed.
          Emits-bind _ _ (complete_vg-Emits parsed hp hl)
            (λ vg. Emits-bind _ _ rest (λ vgs. Emits-pure _))))

  pub vgs-Emits :
      (filter : List Text)
      → E (ran (shell [] (vgs_command (join filter (text " ")))))
      → E (ran (shell [] (pvs_command (join [] (text " ")))))
      → E (ran (shell [] (lvs_command (join [] (text " ")))))
      → Emits E (vgs filter)
  unfolding vgs vgs_command
  vgs-Emits filter h hp hl = search (emit_rules, lvm_run-Emits, collect_vgs-Emits)

  pub vgremove-Emits :
      (vg : Vg)
      → E (ran (shell [] (format (text "vgremove -y " ∷ vg.name ∷ []))))
      → Emits E (vgremove (vg_pointer vg))
  vgremove-Emits vg h = rw (vgremove-vg_pointer vg) (search (emit_rules, lvm_do-Emits))

  pvscan_cache-Emits :
      (path : Text)
      → E (ran (shell [] (format (text "pvscan --cache " ∷ path ∷ []))))
      → Emits E (pvscan_cache path)
  unfolding pvscan_cache
  pvscan_cache-Emits path h = search (emit_rules, lvm_do-Emits)

  pub pvremove-Emits :
      (pv : Pv)
      → E (ran (shell [] (format (text "pvremove -y " ∷ pv.path ∷ []))))
      → E (ran (shell [] (format (text "pvscan --cache " ∷ pv.path ∷ []))))
      → Emits E (pvremove (pv_pointer pv))
  unfolding scan_all
  pvremove-Emits pv h hs =
      rw (pvremove-pv_pointer pv) (search (emit_rules, lvm_do-Emits, pvscan_cache-Emits))
