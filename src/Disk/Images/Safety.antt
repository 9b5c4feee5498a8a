-- ===== src/Disk/Images/Safety.antt =====
-- What OCISetup (core/disk/filesystem.go) does to the machine.
use albius.Base.{
  ◌≡◌, ◌∙◌, refl, ap, inl, inr, Among, ◌++◌, format, if◌then◌else◌, ℕ, zero, suc, Bool, List, [],
  ◌∷◌, Text, text, join_path,
}
use albius.Machine.Returns.{ok-injective, handling-returns}
use albius.Machine.Files.{list_dir}
use albius.Machine.{
  Platform, Event, ran, wrote, made_dir, removed_all, called, shell, Go, World, ok, pure, fail,
  perform,
}
use albius.Machine.Emits.{
  Emits, Gave, Emits-bind_gave, Emits-bind, Emits-handling, Emits-fail_on, Emits-perform,
  Emits-observe, emit_rules,
}
use albius.Machine.Files.Emits.{Emits-list_dir, Emits-remove_all, Emits-write_file, file_rules}
use albius.Util.Emits.{Emits-run_command, util_rules}
use albius.Disk.Images.{
  Reply, got, refused, Pulled, Images, rsync_command, bind_tmp_command, reply_or_fail,
  remove_entries, pull, pull_rounds, pull_four, copy_image, prepare_tmp, clear_tmp, oci_setup,
}

module _ ⦃P : Platform⦄ ⦃I : Images⦄ where
  -- The events of OCISetup: calls of the library, and the commands and changes of files that
  -- belong to its directory for temporary files and to the destination. What is copied is what the
  -- library answered to have mounted, and what is removed stood in a list of that directory.
  pub data ImageEvent (tmp_dir destination : Text) : Event → Type 0 where
    calls : (name : Text) (texts : List Text) → ImageEvent tmp_dir destination (called name texts)
    makes : ImageEvent tmp_dir destination (made_dir tmp_dir)
    binds :
        ImageEvent tmp_dir destination
          (ran (shell [] (text "mount --bind " ++ (tmp_dir ++ text " /var/tmp"))))
    unbinds : ImageEvent tmp_dir destination (ran (shell [] (text "umount -l /var/tmp")))
    copies :
        (verbose : Bool) (layer mount_point : Text) (s : P.State)
        → (I.mount_image layer s).0 ≡ got mount_point
        → ImageEvent tmp_dir destination (
            ran (
              shell [] (
                text "rsync -a"
                ++ ((if verbose then text "v" else [])
                    ++ (text "xHAX --numeric-ids "
                        ++ (mount_point ++ (text "/ " ++ (destination ++ text "/"))))))))
    empties :
        (entries : List Text) (entry : Text)
        → Gave (list_dir tmp_dir) entries
        → Among entry entries
        → ImageEvent tmp_dir destination (removed_all (join_path (tmp_dir ∷ entry ∷ [])))
    saves :
        (digest : Text)
        → ImageEvent tmp_dir destination
            (wrote (join_path (destination ∷ text ".oci_digest" ∷ [])) digest)

  reply-got :
      {A : Type 0} (reply : Reply A) (w : World) (a : A)
      → (reply_or_fail reply w).0 ≡ ok a
      → reply ≡ got a
  unfolding reply_or_fail pure fail
  reply-got (got b) w a h = let same : b ≡ a = ok-injective h in ap got same
  reply-got (refused why) w a h = cc h

module _ ⦃P : Platform⦄ ⦃I : Images⦄ (tmp_dir destination : Text) where
  abbrev OnlyImage : {A : Type 0} → (m : Go A) → Type 0
  OnlyImage m = Emits (ImageEvent tmp_dir destination) m

  Emits-reply_or_fail : {A : Type 0} (reply : Reply A) → OnlyImage (reply_or_fail reply)
  unfolding reply_or_fail
  Emits-reply_or_fail (got a) = search emit_rules
  Emits-reply_or_fail (refused why) = search emit_rules

  Emits-remove_entries :
      (entries : List Text)
      → ((entry : Text)
          → Among entry entries
          → ImageEvent tmp_dir destination (removed_all (join_path (tmp_dir ∷ entry ∷ []))))
      → OnlyImage (remove_entries tmp_dir entries)
  unfolding remove_entries
  Emits-remove_entries [] h = search emit_rules
  Emits-remove_entries (entry ∷ entries) h =
      Emits-bind _ _ (Emits-handling _ _ (Emits-remove_all _ (h entry (inl refl))))
        (λ done. Emits-remove_entries entries (λ other among. h other (inr among)))

  Emits-pull : (source name : Text) → OnlyImage (pull source name)
  unfolding pull
  Emits-pull source name = search (Emits-perform, calls)

  Emits-pull_rounds :
      (n : ℕ) (source name : Text) (last : Reply Pulled)
      → OnlyImage (pull_rounds n source name last)
  unfolding pull_rounds
  Emits-pull_rounds zero source name last = search emit_rules
  Emits-pull_rounds (suc n) source name last =
      Emits-bind _ _ (Emits-pull source name) (next (Emits-pull_rounds n source name))
    where
      next :
          ((last : Reply Pulled) → OnlyImage (pull_rounds n source name last))
          → (reply : Reply Pulled)
          → OnlyImage (elim reply [
            | got pulled ↦ pure (got pulled)
            | refused why ↦ pull_rounds n source name (refused why)
          ])
      next h (got pulled) = search emit_rules
      next h (refused why) = h (refused why)

  copy_command :
      (verbose : Bool) (layer mount_point : Text) (s : P.State)
      → (I.mount_image layer s).0 ≡ got mount_point
      → ImageEvent tmp_dir destination
          (ran (shell [] (rsync_command verbose mount_point destination)))
  unfolding rsync_command format text
  copy_command verbose layer mount_point s h = copies verbose layer mount_point s h

  Emits-copy_image :
      (layer : Text) (verbose : Bool) → OnlyImage (copy_image layer destination verbose)
  unfolding copy_image perform
  Emits-copy_image layer verbose =
      Emits-bind_gave _ _ (Emits-perform _ _ (calls _ _)) (λ mounted gave.
        Emits-bind_gave _ _ (Emits-handling _ _ (Emits-reply_or_fail mounted))
          (λ mount_point got_it.
            let mounted_there =
              ok-injective gave.1
              ∙ reply-got mounted got_it.0 mount_point (handling-returns _ _ _ got_it.1) in
            Emits-bind _ _
              (Emits-handling _ _ (
                Emits-run_command _
                  (copy_command verbose layer mount_point gave.0.state mounted_there)))
              (λ copied. search (emit_rules, Emits-perform, calls))))

  bind_command_event : ImageEvent tmp_dir destination (ran (shell [] (bind_tmp_command tmp_dir)))
  unfolding bind_tmp_command format text
  bind_command_event = binds

  Emits-prepare_tmp : OnlyImage (prepare_tmp tmp_dir)
  unfolding prepare_tmp
  Emits-prepare_tmp = search (emit_rules, file_rules, util_rules, makes, bind_command_event)

  Emits-clear_tmp : OnlyImage (clear_tmp tmp_dir)
  unfolding clear_tmp
  Emits-clear_tmp = Emits-bind _ _ (Emits-handling _ _ (Emits-run_command _ unbinds)) (λ unbound.
      Emits-bind_gave _ _ (Emits-handling _ _ (Emits-list_dir tmp_dir)) (λ entries gave.
        Emits-remove_entries entries
          (λ entry among. empties entries entry (gave.0, handling-returns _ _ _ gave.1) among)))

module _ ⦃P : Platform⦄ ⦃I : Images⦄ where
  -- Whatever the library and the machine answer, and also when it fails, OCISetup calls the
  -- library, copies what the library answered to have mounted into the destination and writes a
  -- digest there, makes its directory for temporary files, binds it at /var/tmp and unmounts that,
  -- and removes what filepath.Join makes of the directory and an entry that a list of it gave;
  -- it does nothing else.
  pub oci_setup-Emits :
      (source storage_path destination : Text) (verbose : Bool)
      → Emits
          (ImageEvent (join_path (storage_path ∷ text "tmp" ∷ [])) destination)
          (oci_setup source storage_path destination verbose)
  unfolding oci_setup pull_four
  oci_setup-Emits source storage_path destination verbose =
      let tmp_dir = join_path (storage_path ∷ text "tmp" ∷ []) in
      Emits-bind _ _ (Emits-perform _ _ (calls _ _)) (λ made.
        Emits-bind _ _ (Emits-handling _ _ (Emits-fail_on made)) (λ ready.
          Emits-bind _ _ (Emits-prepare_tmp tmp_dir destination) (λ bound.
            Emits-bind _ _ (Emits-pull_rounds tmp_dir destination 4 _ _ _) (λ reply.
              Emits-bind _ _ (Emits-handling _ _ (Emits-reply_or_fail tmp_dir destination reply))
                (λ pulled. Emits-bind _ _ (Emits-observe _) (λ found.
                  Emits-bind _ _
                    (Emits-handling _ _ (Emits-reply_or_fail tmp_dir destination found))
                    (λ layer.
                      Emits-bind _ _ (Emits-copy_image tmp_dir destination layer verbose) (λ copied.
                        Emits-bind _ _ (Emits-clear_tmp tmp_dir destination)
                          (λ cleared. Emits-handling _ _ (Emits-write_file _ _ (saves _)))))))))))
