-- ===== src/Machine/Files/Emits.antt =====
-- The events of the functions on files.
use albius.Base.{Text}
use albius.Machine.{
  Platform, Event, wrote, removed, made_dir, removed_all, Read, contents, not_read, Listing, names,
  not_listed,
}
use albius.Machine.Emits.{Emits, Emits-perform, Emits-observe, emit_rules}
use albius.Machine.Files.{
  read_result, write_file, read_file, remove_file, make_dir, listed, list_dir, remove_all,
}

module _ ⦃P : Platform⦄ {E : Event → Type 0} where
  Emits-read_result : (found : Read) → Emits E (read_result found)
  unfolding read_result
  Emits-read_result (contents bytes) = search emit_rules
  Emits-read_result (not_read why) = search emit_rules

  pub Emits-write_file :
      (path bytes : Text) → E (wrote path bytes) → Emits E (write_file path bytes)
  unfolding write_file
  Emits-write_file path bytes h = search emit_rules

  pub Emits-read_file : (path : Text) → Emits E (read_file path)
  unfolding read_file
  Emits-read_file path = search (emit_rules, Emits-read_result)

  pub Emits-remove_file : (path : Text) → E (removed path) → Emits E (remove_file path)
  unfolding remove_file
  Emits-remove_file path h = search emit_rules

  pub Emits-make_dir : (path : Text) → E (made_dir path) → Emits E (make_dir path)
  unfolding make_dir
  Emits-make_dir path h = search (emit_rules, Emits-perform)

  Emits-listed : (found : Listing) → Emits E (listed found)
  unfolding listed
  Emits-listed (names entries) = search emit_rules
  Emits-listed (not_listed why) = search emit_rules

  pub Emits-list_dir : (path : Text) → Emits E (list_dir path)
  unfolding list_dir
  Emits-list_dir path = search (emit_rules, Emits-observe, Emits-listed)

  pub Emits-remove_all : (path : Text) → E (removed_all path) → Emits E (remove_all path)
  unfolding remove_all
  Emits-remove_all path h = search (emit_rules, Emits-perform)

pub ruleset file_rules = (
  Emits-write_file, Emits-read_file, Emits-remove_file, Emits-make_dir, Emits-list_dir,
  Emits-remove_all,
)
