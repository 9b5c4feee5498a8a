-- ===== src/Machine/Files.antt =====
-- The functions of the package `os` whose failure is an error.
pub mod Answers
pub mod Emits
use albius.Base.{List, Text}
use albius.Machine.{
  Platform, Read, contents, not_read, Listing, names, not_listed, message, made_dir, removed_all,
  Go, pure, fail, ◌>>=◌, perform, observe, read_path, write_path, remove_path, fail_on,
}

module _ ⦃P : Platform⦄ where
  read_result : Read → Go Text
  unfolding pure fail
  read_result (contents bytes) = pure bytes
  read_result (not_read why) = fail (message why)

  -- os.WriteFile, os.ReadFile and os.Remove, whose failure is an error
  unfoldable pub write_file : Text → Text → Go (Unit {0})
  write_file path bytes = do failed ← write_path path bytes; fail_on failed

  unfoldable pub read_file : Text → Go Text
  unfolding read_result
  read_file path = do found ← read_path path; read_result found

  unfoldable pub remove_file : Text → Go (Unit {0})
  remove_file path = do failed ← remove_path path; fail_on failed

  -- os.Mkdir, os.ReadDir and os.RemoveAll
  unfoldable pub make_dir : Text → Go (Unit {0})
  make_dir path = do failed ← perform (made_dir path) (P.make_dir path); fail_on failed

  listed : Listing → Go (List Text)
  unfolding pure fail
  listed (names entries) = pure entries
  listed (not_listed why) = fail (message why)

  unfoldable pub list_dir : Text → Go (List Text)
  unfolding listed
  list_dir path = do found ← observe (P.list_dir path); listed found

  unfoldable pub remove_all : Text → Go (Unit {0})
  remove_all path = do failed ← perform (removed_all path) (P.remove_all path); fail_on failed
