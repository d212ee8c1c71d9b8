-- ===== src/Tests/Data.antt =====
-- The files, requests and databases that the tests start from.
use proj_rc.Base.{◌∷◌, [], true, refl, ◌≡◌, Bytes, codes}
use proj_rc.Shared.Verifications.{verify_password}
use proj_rc.Database.Files.{Entries, FileSystem, directory, regular, find}
use proj_rc.Database.Files.Paths.{
  users_dir, user_dir, hosted_dir, bidded_dir, pass_file, login_file,
}
use proj_rc.Database.Monad.{Db}
use proj_rc.Database.Users.State.{stranger, offline, online, Represents, IsUsable}

abbrev pub password : Bytes
password = codes "password"

abbrev pub other_password : Bytes
other_password = codes "passw0rd"

abbrev pub user : Bytes
user = codes "123456"

abbrev pub no_users : Entries
no_users = (users_dir, directory) ∷ []

abbrev pub user_offline : Entries
user_offline =
    (users_dir, directory)
    ∷ (user_dir user, directory)
    ∷ (hosted_dir user, directory)
    ∷ (bidded_dir user, directory)
    ∷ (pass_file user, regular password)
    ∷ []

abbrev pub user_online : Entries
user_online = (login_file user, regular []) ∷ user_offline

abbrev pub fs_of : Entries → FileSystem
fs_of e = record { entries = e; writable = λ p. true }

abbrev pub db_of : Entries → Db
db_of e = record { fs = fs_of e; sem = 1 }

pub no_users-IsUsable : IsUsable (fs_of no_users)
unfolding find
no_users-IsUsable = record { users = refl; may_write = λ p. refl }

pub user_offline-IsUsable : IsUsable (fs_of user_offline)
unfolding find
user_offline-IsUsable = record { users = refl; may_write = λ p. refl }

pub user_online-IsUsable : IsUsable (fs_of user_online)
unfolding find
user_online-IsUsable = record { users = refl; may_write = λ p. refl }

pub no_users-stranger : Represents no_users user stranger
unfolding find
no_users-stranger = record {
  at_dir = refl;
  at_hosted = refl;
  at_bidded = refl;
  at_pass = refl;
  at_login = refl;
}

pub user_offline-offline : Represents user_offline user (offline password)
unfolding find verify_password
user_offline-offline = (
  record { at_dir = refl; at_hosted = refl; at_bidded = refl; at_pass = refl; at_login = refl },
  refl,
)

pub user_online-online : Represents user_online user (online password)
unfolding find verify_password
user_online-online = (
  record { at_dir = refl; at_hosted = refl; at_bidded = refl; at_pass = refl; at_login = refl },
  refl,
)

pub password-valid : verify_password password ≡ true
unfolding verify_password
password-valid = refl

pub other_password-valid : verify_password other_password ≡ true
unfolding verify_password
other_password-valid = refl
