-- ===== src/System/Settings/Users.antt =====
-- The identifiers of AddUser of core/system/post_install.go.
use albius.Base.{◌≡◌, ◌≢◌, List, Text, ℤ, minus_one, ==_of_ne, int_eq}
use albius.Machine.{Platform}
use albius.System.Settings.{id_arguments, add_user}

id_arguments_drops :
    (uid uid' gid : ℤ) → gid ≢ minus_one → id_arguments uid gid ≡ id_arguments uid' gid
unfolding id_arguments
id_arguments_drops uid uid' gid h = rw (==_of_ne gid minus_one h)

module _ ⦃P : Platform⦄ where
  -- When AddUser is given a gid, it does the same whatever uid it is given.
  pub add_user_drops :
      (root username fullname : Text) (groups : List Text) (password : Text) (uid uid' gid : ℤ)
      → gid ≢ minus_one
      → add_user root username fullname groups password uid gid
        ≡ add_user root username fullname groups password uid' gid
  unfolding add_user
  add_user_drops root username fullname groups password uid uid' gid h =
      rw (id_arguments_drops uid uid' gid h)
