-- ===== src/Machine/Files/Answers.antt =====
-- What os.WriteFile and os.ReadFile return, by the machine's answer.
use albius.Base.{◌≡◌, ap, Option, none, some, [], ◌∷◌, ◌++◌, Text}
use albius.Machine.{
  Platform, World, contents, ok, pure, fail, ◌>>=◌, perform, observe, wrote, read_path, write_path,
  fail_on,
}
use albius.Machine.Files.{read_file, write_file, read_result}

module _ ⦃P : Platform⦄ where
  pub write_file-ok :
      (path bytes : Text) (w w' : World)
      → write_file path bytes w ≡ (ok tt, w')
      → P.write_file path bytes w.state ≡ (none, w'.state)
  unfolding write_file write_path perform fail_on fail ◌>>=◌ pure
  write_file-ok path bytes w w' e = go (P.write_file path bytes w.state) e
    where
      go :
          (r : Option Text × P.State)
          → fail_on r.0 (record { state = r.1; log = w.log ++ (wrote path bytes ∷ []) })
            ≡ (ok tt, w')
          → r ≡ (none, w'.state)
      go (none, s) e = ap (λ x. (none, x.1.state)) e
      go (some why, s) e = cc e

  pub read_file-contents :
      (path bytes : Text) (w : World)
      → (P.read_file path w.state).0 ≡ contents bytes
      → read_file path w ≡ (ok bytes, record w { state = (P.read_file path w.state).1 })
  unfolding read_file read_path observe ◌>>=◌ read_result pure
  read_file-contents path bytes w e = rw e
