-- ===== src/Database/Accounts/Logout.antt =====
-- `Logout` on files refines the specification of a logout.
use proj_rc.Base.{◌<◌, ◌≢◌, true, ◌≡◌, refl, arith, Bytes, bytes_eq, ◌∙◌, Bool-cases, inl, inr}
use proj_rc.Shared.Outcome.{user_not_logged_in}
use proj_rc.Shared.Verifications.{verify_user_id, verify_password}
use proj_rc.Database.Monad.{Db, done, raised, wait_then}
use proj_rc.Database.Users.{PasswordCheck, erase_login}
use proj_rc.Database.Users.State.{
  Account, stranger, unregistered, offline, online, Represents, IsUsable,
}
use proj_rc.Database.Users.Checks.{correct_password-eq, check_against}
use proj_rc.Database.Users.Laws.{erase_login-Moves, erase_login-offline}
use proj_rc.Database.Accounts.{LogoutResult, logout, logout_locked}
use proj_rc.Database.Accounts.Spec.{logout_spec}
use proj_rc.Database.Accounts.Does.{Does, nothing-Does, steps-Does, taken}

module _ (u password : Bytes) (db : Db) (valid : verify_user_id u ≡ true)
    (fits : verify_password password ≡ true) (us : IsUsable db.fs) (free : 0 < db.sem) where
  logout-taken : logout u password db ≡ logout_locked u password (taken db)
  unfolding logout
  logout-taken = wait_then (logout_locked u password) db free

  logout-refused :
      (account : Account)
      → check_against password account ≢ PasswordCheck.correct
      → Represents db.fs.entries u account
      → logout u password db ≡ (done LogoutResult.nok, db)
  logout-refused account ne h =
      logout-taken
      ∙ (unfold logout_locked in
          ground (arith, correct_password-eq u valid db.fs password account fits h))

  pub logout-offline :
      (stored : Bytes)
      → bytes_eq stored password ≡ true
      → Represents db.fs.entries u (offline stored)
      → logout u password db ≡ (raised user_not_logged_in, db)
  logout-offline stored same h =
      logout-taken
      ∙ (unfold logout_locked in
          ground (
            arith,
            correct_password-eq u valid db.fs password (offline stored) fits h,
            erase_login-offline u valid db.fs us stored h,
          ))

  pub logout-online :
      (stored : Bytes)
      → bytes_eq stored password ≡ true
      → Represents db.fs.entries u (online stored)
      → logout u password db ≡ (done LogoutResult.ok, record db { fs = (erase_login u db.fs).1 })
  logout-online stored same h =
      logout-taken
      ∙ (unfold logout_locked in
          ground (
            arith,
            correct_password-eq u valid db.fs password (online stored) fits h,
            (erase_login-Moves u valid db.fs us stored h).returned,
          ))

  -- `logout`, for a user id and a password that the checks accept, on usable files
  -- (`IsUsable`), a free semaphore and the user in any of the four account states, answers
  -- and leaves the account as `logout_spec` says, leaves the files of all other users as
  -- they were and the tree usable, and leaves the semaphore as it was.
  pub logout-Does :
      (account : Account)
      → Represents db.fs.entries u account
      → Does u db (logout u password db) (logout_spec password account)
  logout-Does stranger h =
      nothing-Does u db us (done LogoutResult.nok) stranger (logout-refused stranger (cc) h) h
  logout-Does unregistered h =
      nothing-Does u db us (done LogoutResult.nok) unregistered (logout-refused unregistered (cc) h)
        h
  logout-Does (offline stored) h = elim (Bool-cases (bytes_eq stored password)) [
    | inl same ↦ rw same (
        nothing-Does u db us (raised user_not_logged_in) (offline stored)
          (logout-offline stored same h) h)
    | inr other ↦ rw other (
        nothing-Does u db us (done LogoutResult.nok) (offline stored)
          (logout-refused (offline stored) (ground arith) h) h)
  ]
  logout-Does (online stored) h = elim (Bool-cases (bytes_eq stored password)) [
    | inl same ↦ rw same (
        steps-Does u db us (done LogoutResult.ok) (offline stored) (logout-online stored same h)
          (λ q o. refl) (erase_login-Moves u valid db.fs us stored h))
    | inr other ↦ rw other (
        nothing-Does u db us (done LogoutResult.nok) (online stored)
          (logout-refused (online stored) (ground arith) h) h)
  ]
