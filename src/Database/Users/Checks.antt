-- ===== src/Database/Users/Checks.antt =====
-- What the checks on a user find in a tree that holds the files of an account.
use proj_rc.Base.{Bool, true, false, ◌≡◌, some, arith, Bytes, bytes_eq, if◌then◌else◌}
use proj_rc.Shared.Verifications.Laws.{password_size, password_alnum}
use proj_rc.Shared.Verifications.{verify_user_id, verify_password}
use proj_rc.Database.Files.{FileSystem, fgets}
use proj_rc.Database.Files.Laws.{fgets-alnum}
use proj_rc.Database.Users.State.{Account, stranger, unregistered, offline, online, Represents}
use proj_rc.Database.Users.{
  check_user_registered, check_user_logged_in, PasswordCheck, correct_password,
}

pub fgets-password : (s : Bytes) → verify_password s ≡ true → fgets 9 s ≡ some s
fgets-password s h =
    let size = password_size s h in fgets-alnum s (omega arith) (omega arith) (password_alnum s h)

-- Which accounts the checks find logged in, and registered.
abbrev pub is_online : Account → Bool
is_online (online password) = true
is_online _ = false

abbrev pub is_registered : Account → Bool
is_registered stranger = false
is_registered unregistered = false
is_registered _ = true

-- What checking a password against an account gives.
abbrev pub check_against : Bytes → Account → PasswordCheck
check_against password stranger = PasswordCheck.unusable
check_against password unregistered = PasswordCheck.unusable
check_against password (offline stored) =
    if bytes_eq stored password then PasswordCheck.correct else PasswordCheck.incorrect
check_against password (online stored) =
    if bytes_eq stored password then PasswordCheck.correct else PasswordCheck.incorrect

module _ (u : Bytes) (valid : verify_user_id u ≡ true) (fs : FileSystem) where
  pub check_user_logged_in-eq :
      (account : Account)
      → Represents fs.entries u account
      → check_user_logged_in u fs ≡ is_online account
  unfolding check_user_logged_in
  check_user_logged_in-eq stranger h = ground arith
  check_user_logged_in-eq unregistered h = ground arith
  check_user_logged_in-eq (offline p) (h, v) = ground arith
  check_user_logged_in-eq (online p) (h, v) = ground arith

  pub check_user_registered-eq :
      (account : Account)
      → Represents fs.entries u account
      → check_user_registered u fs ≡ is_registered account
  unfolding check_user_registered
  check_user_registered-eq stranger h = ground arith
  check_user_registered-eq unregistered h = ground arith
  check_user_registered-eq (offline p) (h, v) = ground arith
  check_user_registered-eq (online p) (h, v) = ground arith

  -- The password file decides, and the comparison is with the whole password.
  pub correct_password-eq :
      (password : Bytes) (account : Account)
      → verify_password password ≡ true
      → Represents fs.entries u account
      → correct_password u password fs ≡ check_against password account
  unfolding correct_password
  correct_password-eq password stranger v h = ground arith
  correct_password-eq password unregistered v h = ground arith
  correct_password-eq password (offline p) v (h, w) = ground (arith, fgets-password p w)
  correct_password-eq password (online p) v (h, w) = ground (arith, fgets-password p w)
