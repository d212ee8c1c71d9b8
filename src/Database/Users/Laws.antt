-- ===== src/Database/Users/Laws.antt =====
-- What the functions on a user's files do in a tree that holds the files of an account.
use proj_rc.Base.{true, false, ◌≡◌, refl, some, [], arith, Bytes, bytes_eq_refl}
use proj_rc.Shared.Verifications.{verify_user_id, verify_password}
use proj_rc.Database.Files.{
  Node, directory, regular, FileSystem, find, put, delete, mkdir, write_file, unlink,
}
use proj_rc.Database.Files.Laws.{find-put, find-delete}
use proj_rc.Database.Files.Paths.{
  FilePath, path_eq, users_dir, user_dir, hosted_dir, bidded_dir, login_file, pass_file,
}
use proj_rc.Database.Users.State.{
  Account, stranger, unregistered, offline, online, Represents, IsUsable, SameElsewhere,
  SameElsewhere-trans, put-SameElsewhere, delete-SameElsewhere, owned, put-Holds, delete-Holds,
}
use proj_rc.Database.Users.{
  Creation, create_user_dir, create_login, create_password, LoginErasure, erase_login,
  PasswordErasure, erase_password,
}

abbrev with_entry : FilePath → Node → FileSystem → FileSystem
with_entry p n fs = record fs { entries = put p n fs.entries }

abbrev without_entry : FilePath → FileSystem → FileSystem
without_entry p fs = record fs { entries = delete p fs.entries }

-- A step on the files of `u` returned `code`, moved the account to `account`, and changed no
-- entry that is not the user's.
pub record Moves {R : Type 0} (u : Bytes) (fs : FileSystem) (r : R × FileSystem) (code : R)
    (account : Account) : Type 0 where
  pub returned : r.0 ≡ code
  pub holds : Represents r.1.entries u account
  pub elsewhere : SameElsewhere u fs.entries r.1.entries
  pub usable : IsUsable r.1

with_entry-IsUsable :
    (p : FilePath) (n : Node) (fs : FileSystem)
    → path_eq p users_dir ≡ false
    → IsUsable fs
    → IsUsable (with_entry p n fs)
with_entry-IsUsable p n fs ne us = record {
  users = ground (arith, find-put users_dir p n fs.entries, us.users);
  may_write = us.may_write;
}

without_entry-IsUsable :
    (p : FilePath) (fs : FileSystem)
    → path_eq p users_dir ≡ false
    → IsUsable fs
    → IsUsable (without_entry p fs)
without_entry-IsUsable p fs ne us = record {
  users = ground (arith, find-delete users_dir p fs.entries, us.users);
  may_write = us.may_write;
}

module _ {R : Type 0} (u : Bytes) (fs : FileSystem) {r : R × FileSystem} {code : R}
    {account : Account} (us : IsUsable fs) where
  -- A step that wrote one entry of the user.
  writes-Moves :
      (p : FilePath) (n : Node)
      → owned u p ≡ true
      → path_eq p users_dir ≡ false
      → r ≡ (code, with_entry p n fs)
      → Represents (put p n fs.entries) u account
      → Moves u fs r code account
  writes-Moves p n o ne e h = rw e (record {
    returned = refl;
    holds = h;
    elsewhere = put-SameElsewhere u p n fs.entries o;
    usable = with_entry-IsUsable p n fs ne us;
  })

  removes-Moves :
      (p : FilePath)
      → owned u p ≡ true
      → path_eq p users_dir ≡ false
      → r ≡ (code, without_entry p fs)
      → Represents (delete p fs.entries) u account
      → Moves u fs r code account
  removes-Moves p o ne e h = rw e (record {
    returned = refl;
    holds = h;
    elsewhere = delete-SameElsewhere u p fs.entries o;
    usable = without_entry-IsUsable p fs ne us;
  })

module _ (u : Bytes) (valid : verify_user_id u ≡ true) (fs : FileSystem) (us : IsUsable fs) where
  create_password_eq :
      (password : Bytes)
      → verify_password password ≡ true
      → Represents fs.entries u unregistered
      → create_password u password fs ≡ (true, with_entry (pass_file u) (regular password) fs)
  unfolding create_password write_file
  create_password_eq password v h = ground (arith, us.may_write (pass_file u))

  -- A user that was unregistered gets a password.
  pub create_password-Moves :
      (password : Bytes)
      → verify_password password ≡ true
      → Represents fs.entries u unregistered
      → Moves u fs (create_password u password fs) true (offline password)
  create_password-Moves password v h =
      writes-Moves u fs us (pass_file u) (regular password) (bytes_eq_refl u) refl
        (create_password_eq password v h)
        (rw (bytes_eq_refl u) at (put-Holds (pass_file u) (regular password) h), v)

  create_login_eq :
      (password : Bytes)
      → Represents fs.entries u (offline password)
      → create_login u fs ≡ (true, with_entry (login_file u) (regular []) fs)
  unfolding create_login write_file
  create_login_eq password (h, v) = ground (arith, us.may_write (login_file u))

  -- A registered user is logged in.
  pub create_login-Moves :
      (password : Bytes)
      → Represents fs.entries u (offline password)
      → Moves u fs (create_login u fs) true (online password)
  create_login-Moves password h =
      writes-Moves u fs us (login_file u) (regular []) (bytes_eq_refl u) refl
        (create_login_eq password h)
        (rw (bytes_eq_refl u) at (put-Holds (login_file u) (regular []) h.0), h.1)

  erase_login_eq :
      (password : Bytes)
      → Represents fs.entries u (online password)
      → erase_login u fs ≡ (LoginErasure.erased, without_entry (login_file u) fs)
  unfolding erase_login unlink
  erase_login_eq password (h, v) = ground (arith, us.may_write (login_file u))

  pub erase_login-Moves :
      (password : Bytes)
      → Represents fs.entries u (online password)
      → Moves u fs (erase_login u fs) LoginErasure.erased (offline password)
  erase_login-Moves password h =
      removes-Moves u fs us (login_file u) (bytes_eq_refl u) refl (erase_login_eq password h)
        (rw (bytes_eq_refl u) at (delete-Holds (login_file u) h.0), h.1)

  -- A user that is not logged in has no login file to remove.
  pub erase_login-offline :
      (password : Bytes)
      → Represents fs.entries u (offline password)
      → erase_login u fs ≡ (LoginErasure.absent, fs)
  unfolding erase_login
  erase_login-offline password (h, v) = ground arith

  erase_password_eq :
      (password : Bytes)
      → Represents fs.entries u (offline password)
      → erase_password u fs ≡ (PasswordErasure.erased, without_entry (pass_file u) fs)
  unfolding erase_password unlink
  erase_password_eq password (h, v) = ground (arith, us.may_write (pass_file u))

  pub erase_password-Moves :
      (password : Bytes)
      → Represents fs.entries u (offline password)
      → Moves u fs (erase_password u fs) PasswordErasure.erased unregistered
  erase_password-Moves password h =
      removes-Moves u fs us (pass_file u) (bytes_eq_refl u) refl (erase_password_eq password h)
        (rw (bytes_eq_refl u) at (delete-Holds (pass_file u) h.0))

  pub create_user_dir-known :
      find (user_dir u) fs.entries ≡ some directory → create_user_dir u fs ≡ (Creation.existed, fs)
  unfolding create_user_dir
  create_user_dir-known h = ground arith

  abbrev with_user_dirs : FileSystem
  with_user_dirs =
      with_entry (bidded_dir u) directory
        (with_entry (hosted_dir u) directory (with_entry (user_dir u) directory fs))

  create_user_dir_eq :
      Represents fs.entries u stranger → create_user_dir u fs ≡ (Creation.created, with_user_dirs)
  unfolding create_user_dir mkdir
  create_user_dir_eq h = ground (
    arith,
    bytes_eq_refl u,
    us.users,
    us.may_write (user_dir u),
    us.may_write (hosted_dir u),
    us.may_write (bidded_dir u),
    find-put (user_dir u) (user_dir u) directory fs.entries,
    find-put (hosted_dir u) (user_dir u) directory fs.entries,
    find-put (user_dir u) (hosted_dir u) directory (put (user_dir u) directory fs.entries),
    find-put (bidded_dir u) (hosted_dir u) directory (put (user_dir u) directory fs.entries),
    find-put (bidded_dir u) (user_dir u) directory fs.entries,
  )

  -- A new user gets a directory with its two children, and no password yet.
  pub create_user_dir-Moves :
      Represents fs.entries u stranger
      → Moves u fs (create_user_dir u fs) Creation.created unregistered
  create_user_dir-Moves h =
      let e₁ = put (user_dir u) directory fs.entries in
      let e₂ = put (hosted_dir u) directory e₁ in
      let own = bytes_eq_refl u in
      rw (create_user_dir_eq h) (record {
        returned = refl;
        holds = rw (bytes_eq_refl u) at (
            put-Holds (bidded_dir u) directory
              (put-Holds (hosted_dir u) directory (put-Holds (user_dir u) directory h)));
        elsewhere =
            SameElsewhere-trans u fs.entries e₁ with_user_dirs.entries
              (put-SameElsewhere u (user_dir u) directory fs.entries own)
              (SameElsewhere-trans u e₁ e₂ with_user_dirs.entries
                (put-SameElsewhere u (hosted_dir u) directory e₁ own)
                (put-SameElsewhere u (bidded_dir u) directory e₂ own));
        usable = with_entry-IsUsable (bidded_dir u) directory _ refl (
            with_entry-IsUsable (hosted_dir u) directory _ refl
              (with_entry-IsUsable (user_dir u) directory fs refl us));
      })
