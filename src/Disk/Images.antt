-- ===== src/Disk/Images.antt =====
-- OCISetup of core/disk/filesystem.go. The container storage library that it calls is an
-- interface.
pub mod Pulling
pub mod Safety
use albius.Base.{
  ℕ, zero, suc, Bool, Option, List, [], ◌∷◌, Text, text, format, replace_byte, join_path,
  if◌then◌else◌,
}
use albius.Machine.{
  Platform, message, wrap, called, Go, pure, fail, ◌>>=◌, ◌>>◌, handling, perform, observe, fail_on,
}
use albius.Machine.Files.{write_file, make_dir, list_dir, remove_all}
use albius.Util.{run_command}

-- What a function of the library returns: a value, or the text of an error.
pub data Reply (A : Type 0) : Type 0 where
  got : A → Reply A
  refused : Text → Reply A

-- An image that was pulled: the encoded digest of its configuration, and the digest of its
-- manifest.
pub record Pulled : Type 0 where
  pub config_digest : Text
  pub manifest_digest : Text

unfoldable pub rsync_command : Bool → Text → Text → Text
rsync_command verbose source destination = format (
    text "rsync -a"
    ∷ (if verbose then text "v" else [])
    ∷ text "xHAX --numeric-ids "
    ∷ source
    ∷ text "/ "
    ∷ destination
    ∷ text "/"
    ∷ [])

unfoldable pub bind_tmp_command : Text → Text
bind_tmp_command dir = format (text "mount --bind " ∷ dir ∷ text " /var/tmp" ∷ [])

module _ ⦃P : Platform⦄ where
  -- The functions of the library prometheus: NewPrometheus and PullImage, GetImageById (the top
  -- layer of the image), MountImage (where it is mounted) and UnMountImage.
  pub record Images : Type 0 where
    pub new_prometheus : Text → Text → P.State → Option Text × P.State
    pub pull_image : Text → Text → P.State → Reply Pulled × P.State
    pub get_image_by_id : Text → P.State → Reply Text × P.State
    pub mount_image : Text → P.State → Reply Text × P.State
    pub unmount_image : Text → P.State → Option Text × P.State

  unfoldable pub reply_or_fail : {A : Type 0} → Reply A → Go A
  reply_or_fail (got a) = pure a
  reply_or_fail (refused why) = fail (message why)

  -- The removal of what is left in the directory for temporary files
  unfoldable pub remove_entries : Text → List Text → Go (Unit {0})
  remove_entries dir [] = pure tt
  remove_entries dir (entry ∷ entries) = do
    handling
        (wrap (format (text "failed to remove " ∷ entry ∷ text " from storage tmp dir: " ∷ [])))
        (remove_all (join_path (dir ∷ entry ∷ [])))
    remove_entries dir entries

  module _ ⦃I : Images⦄ where
    unfoldable pub pull : Text → Text → Go (Reply Pulled)
    pull source name =
        perform (called (text "PullImage") (source ∷ name ∷ [])) (I.pull_image source name)

    -- The loop `for range n`, left at the first success, and what the last round gave
    unfoldable pub pull_rounds : ℕ → Text → Text → Reply Pulled → Go (Reply Pulled)
    pull_rounds zero source name last = pure last
    pull_rounds (suc n) source name last = do
      reply ← pull source name
      elim reply [
        | got pulled ↦ pure (got pulled)
        | refused why ↦ pull_rounds n source name (refused why)
      ]

    unfoldable pub pull_four : Text → Text → Go (Reply Pulled)
    pull_four source name = pull_rounds 4 source name (refused [])

    -- The image is mounted, copied to the destination, and unmounted.
    unfoldable pub copy_image : Text → Text → Bool → Go (Unit {0})
    copy_image layer destination verbose = do
      mounted ← perform (called (text "MountImage") (layer ∷ [])) (I.mount_image layer)
      mount_point ←
          handling (wrap (format (text "failed to mount image at " ∷ layer ∷ text ": " ∷ [])))
            (reply_or_fail mounted)
      handling
          (wrap (format (text "failed to sync image contents to " ∷ destination ∷ text ": " ∷ [])))
          (run_command (rsync_command verbose mount_point destination))
      unmounted ← perform (called (text "UnMountImage") (layer ∷ [])) (I.unmount_image layer)
      handling (wrap (text "failed to unmount image: ")) (fail_on unmounted)

    -- The directory for temporary files is made and bound, and in the end unmounted and emptied.
    unfoldable pub prepare_tmp : Text → Go (Unit {0})
    prepare_tmp dir = do
      handling (wrap (text "failed to create storage tmp dir: ")) (make_dir dir)
      handling (wrap (text "failed to mount bind storage tmp dir: "))
          (run_command (bind_tmp_command dir))

    unfoldable pub clear_tmp : Text → Go (Unit {0})
    clear_tmp dir = do
      handling (wrap (text "failed to unmount storage tmp dir: "))
          (run_command (text "umount -l /var/tmp"))
      entries ← handling (wrap (text "failed to read from storage tmp dir: ")) (list_dir dir)
      remove_entries dir entries

    -- OCISetup
    unfoldable pub oci_setup : Text → Text → Text → Bool → Go (Unit {0})
    oci_setup source storage_path destination verbose = do
      let storage = join_path (storage_path ∷ text "storage" ∷ [])
      let tmp_dir = join_path (storage_path ∷ text "tmp" ∷ [])
      made ←
          perform (called (text "NewPrometheus") (storage ∷ text "overlay" ∷ []))
            (I.new_prometheus storage (text "overlay"))
      handling (wrap (text "failed to create Prometheus instance: ")) (fail_on made)
      prepare_tmp tmp_dir
      reply ← pull_four source (replace_byte b'/' (text "-") source)
      pulled ← handling (wrap (text "failed to pull OCI image: ")) (reply_or_fail reply)
      found ← observe (I.get_image_by_id pulled.config_digest)
      layer ← handling (wrap (text "failed to get image by ID: ")) (reply_or_fail found)
      copy_image layer destination verbose
      clear_tmp tmp_dir
      handling (wrap (format (text "failed to save digest in " ∷ destination ∷ text ": " ∷ [])))
          (write_file (join_path (destination ∷ text ".oci_digest" ∷ [])) pulled.manifest_digest)
