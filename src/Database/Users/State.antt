-- ===== src/Database/Users/State.antt =====
-- The abstract view of a user's files: an account in one of four states, and the entries of the tree
-- that stand for each state.
use proj_rc.Base.{
  Bool, true, false, ◌≡◌, ◌∙◌, Option, none, some, if◌then◌else◌, [], arith, Bytes, bytes_eq,
}
use proj_rc.Shared.Verifications.{verify_password}
use proj_rc.Database.Files.{Node, directory, regular, Entries, FileSystem, find, put, delete}
use proj_rc.Database.Files.Laws.{find-put, find-delete}
use proj_rc.Database.Files.Paths.{
  FilePath, path_eq, path_eq→eq, users_dir, user_dir, hosted_dir, bidded_dir, login_file, pass_file,
  hosted_file, bidded_file,
}

-- The states of an account: never seen, known but without a password, registered, logged in.
pub data Account : Type 0 where
  stranger unregistered : Account
  offline online : Bytes → Account

-- The five entries of an account's state.
pub record Holds (e : Entries) (u : Bytes) (dir hosted bidded pass login : Option Node)
    : Type 0 where
  pub at_dir : find (user_dir u) e ≡ dir
  pub at_hosted : find (hosted_dir u) e ≡ hosted
  pub at_bidded : find (bidded_dir u) e ≡ bidded
  pub at_pass : find (pass_file u) e ≡ pass
  pub at_login : find (login_file u) e ≡ login

abbrev pub here : Option Node
here = some directory

-- The tree holds the account of user `u` in the given state.
abbrev pub Represents : Entries → Bytes → Account → Type 0
Represents e u stranger = Holds e u none none none none none
Represents e u unregistered = Holds e u here here here none none
Represents e u (offline password) =
    Holds e u here here here (some (regular password)) none × (verify_password password ≡ true)
Represents e u (online password) =
    Holds e u here here here (some (regular password)) (some (regular []))
    × (verify_password password ≡ true)

-- The server may write below ASDIR/USERS, which is there.
pub record IsUsable (fs : FileSystem) : Type 0 where
  pub users : find users_dir fs.entries ≡ some directory
  pub may_write : (p : FilePath) → fs.writable p ≡ true

-- The paths below the directory of user `u`, and that directory.
abbrev pub owned : Bytes → FilePath → Bool
owned u (user_dir v) = bytes_eq u v
owned u (hosted_dir v) = bytes_eq u v
owned u (bidded_dir v) = bytes_eq u v
owned u (login_file v) = bytes_eq u v
owned u (pass_file v) = bytes_eq u v
owned u (hosted_file v a) = bytes_eq u v
owned u (bidded_file v a) = bytes_eq u v
owned u _ = false

-- Nothing has changed but the files of user `u`.
abbrev pub SameElsewhere : Bytes → Entries → Entries → Type 0
SameElsewhere u e e' = (q : FilePath) → owned u q ≡ false → find q e' ≡ find q e

pub SameElsewhere-trans :
    (u : Bytes) (e f g : Entries) → SameElsewhere u e f → SameElsewhere u f g → SameElsewhere u e g
SameElsewhere-trans u e f g h k q o = k q o ∙ h q o

pub put-SameElsewhere :
    (u : Bytes) (p : FilePath) (n : Node) (e : Entries)
    → owned u p ≡ true
    → SameElsewhere u e (put p n e)
put-SameElsewhere u p n e o q o' = ground (arith, find-put q p n e, path_eq→eq p q)

pub delete-SameElsewhere :
    (u : Bytes) (p : FilePath) (e : Entries) → owned u p ≡ true → SameElsewhere u e (delete p e)
delete-SameElsewhere u p e o q o' = ground (arith, find-delete q p e, path_eq→eq p q)

Holds-elsewhere :
    (u : Bytes) {v : Bytes} {e e' : Entries} {dir hosted bidded pass login : Option Node}
    → bytes_eq u v ≡ false
    → SameElsewhere u e e'
    → Holds e v dir hosted bidded pass login
    → Holds e' v dir hosted bidded pass login
Holds-elsewhere u {v = v} ne same h = record {
  at_dir = same (user_dir v) ne ∙ h.at_dir;
  at_hosted = same (hosted_dir v) ne ∙ h.at_hosted;
  at_bidded = same (bidded_dir v) ne ∙ h.at_bidded;
  at_pass = same (pass_file v) ne ∙ h.at_pass;
  at_login = same (login_file v) ne ∙ h.at_login;
}

-- The accounts of the other users stay as they are.
pub Represents-elsewhere :
    (u v : Bytes) (e e' : Entries) (account : Account)
    → bytes_eq u v ≡ false
    → SameElsewhere u e e'
    → Represents e v account
    → Represents e' v account
Represents-elsewhere u v e e' stranger ne same h = Holds-elsewhere u ne same h
Represents-elsewhere u v e e' unregistered ne same h = Holds-elsewhere u ne same h
Represents-elsewhere u v e e' (offline p) ne same (h, g) = (Holds-elsewhere u ne same h, g)
Represents-elsewhere u v e e' (online p) ne same (h, g) = (Holds-elsewhere u ne same h, g)

module _ {e : Entries} {u : Bytes} {dir hosted bidded pass login : Option Node} where
  -- The entries of an account after a write, a new directory or a removal at `q`.
  pub put-Holds :
      (q : FilePath) (n : Node)
      → Holds e u dir hosted bidded pass login
      → Holds
          (put q n e)
          u
          (if path_eq q (user_dir u) then some n else dir)
          (if path_eq q (hosted_dir u) then some n else hosted)
          (if path_eq q (bidded_dir u) then some n else bidded)
          (if path_eq q (pass_file u) then some n else pass)
          (if path_eq q (login_file u) then some n else login)
  put-Holds q n h = record {
    at_dir = rw (find-put (user_dir u) q n e, h.at_dir);
    at_hosted = rw (find-put (hosted_dir u) q n e, h.at_hosted);
    at_bidded = rw (find-put (bidded_dir u) q n e, h.at_bidded);
    at_pass = rw (find-put (pass_file u) q n e, h.at_pass);
    at_login = rw (find-put (login_file u) q n e, h.at_login);
  }

  pub delete-Holds :
      (q : FilePath)
      → Holds e u dir hosted bidded pass login
      → Holds
          (delete q e)
          u
          (if path_eq q (user_dir u) then none else dir)
          (if path_eq q (hosted_dir u) then none else hosted)
          (if path_eq q (bidded_dir u) then none else bidded)
          (if path_eq q (pass_file u) then none else pass)
          (if path_eq q (login_file u) then none else login)
  delete-Holds q h = record {
    at_dir = rw (find-delete (user_dir u) q e, h.at_dir);
    at_hosted = rw (find-delete (hosted_dir u) q e, h.at_hosted);
    at_bidded = rw (find-delete (bidded_dir u) q e, h.at_bidded);
    at_pass = rw (find-delete (pass_file u) q e, h.at_pass);
    at_login = rw (find-delete (login_file u) q e, h.at_login);
  }
