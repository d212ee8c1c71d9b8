-- ===== src/Database/Accounts/Unregister.antt =====
-- `Unregister` on files refines the specification of unregistering.
use proj_rc.Base.{◌<◌, ◌≢◌, true, ◌≡◌, arith, Bytes, bytes_eq, ◌∙◌, Bool-cases, inl, inr}
use proj_rc.Shared.Outcome.{user_not_logged_in}
use proj_rc.Shared.Verifications.{verify_user_id, verify_password}
use proj_rc.Database.Monad.{Db, done, raised, wait_then}
use proj_rc.Database.Users.{PasswordCheck, erase_login, erase_password}
use proj_rc.Database.Users.State.{
  Account, stranger, unregistered, offline, online, Represents, IsUsable,
}
use proj_rc.Database.Users.Checks.{correct_password-eq, check_against}
use proj_rc.Database.Users.Laws.{erase_login-Moves, erase_password-Moves}
use proj_rc.Database.Accounts.{
  UnregisterResult, logout, unregister, unregister_locked, erase_locked,
}
use proj_rc.Database.Accounts.Spec.{unregister_spec}
use proj_rc.Database.Accounts.Logout.{logout-offline, logout-online}
use proj_rc.Database.Accounts.Does.{Does, nothing-Does, steps-Does, taken}

module _ (u password : Bytes) (db : Db) (valid : verify_user_id u ≡ true)
    (fits : verify_password password ≡ true) (us : IsUsable db.fs) (free : 0 < db.sem) where
  unregister-taken : unregister u password db ≡ unregister_locked u password (taken db)
  unfolding unregister
  unregister-taken = wait_then (unregister_locked u password) db free

  -- A wrong password, or none that could be right.
  unregister-refused :
      (account : Account)
      → check_against password account ≢ PasswordCheck.correct
      → Represents db.fs.entries u account
      → unregister u password db ≡ (done UnregisterResult.nok, db)
  unregister-refused account ne h =
      unregister-taken
      ∙ (unfold unregister_locked in
          ground (arith, correct_password-eq u valid db.fs password account fits h))

  -- With the right password the call goes on as `Logout` does from the same database.
  after_logout-raised :
      (account : Account)
      → check_against password account ≡ PasswordCheck.correct
      → Represents db.fs.entries u account
      → logout u password db ≡ (raised user_not_logged_in, db)
      → unregister u password db ≡ (raised user_not_logged_in, db)
  after_logout-raised account eq h left =
      unregister-taken
      ∙ (unfold unregister_locked in
          ground (arith, correct_password-eq u valid db.fs password account fits h))

  unregister-online :
      (stored : Bytes)
      → bytes_eq stored password ≡ true
      → Represents db.fs.entries u (online stored)
      → unregister u password db ≡ (
        done UnregisterResult.ok,
        record db { fs = (erase_password u (erase_login u db.fs).1).1 },
      )
  unregister-online stored same h =
      let left = erase_login-Moves u valid db.fs us stored h in
      let mid : Db = record db { fs = (erase_login u db.fs).1 } in
      unregister-taken
      ∙ (unfold unregister_locked erase_locked in
          ground (
            arith,
            correct_password-eq u valid db.fs password (online stored) fits h,
            logout-online u password db valid fits us free stored same h,
            wait_then (erase_locked u) mid free,
            (erase_password-Moves u valid mid.fs left.usable stored left.holds).returned,
          ))

  -- `unregister`, for a user id and a password that the checks accept, on usable files
  -- (`IsUsable`), a free semaphore and the user in any of the four account states, answers
  -- and leaves the account as `unregister_spec` says, leaves the files of all other users as
  -- they were and the tree usable, and leaves the semaphore as it was.
  pub unregister-Does :
      (account : Account)
      → Represents db.fs.entries u account
      → Does u db (unregister u password db) (unregister_spec password account)
  unregister-Does stranger h =
      nothing-Does u db us (done UnregisterResult.nok) stranger (unregister-refused stranger (cc) h)
        h
  unregister-Does unregistered h =
      nothing-Does u db us (done UnregisterResult.nok) unregistered
        (unregister-refused unregistered (cc) h) h
  unregister-Does (offline stored) h = elim (Bool-cases (bytes_eq stored password)) [
    | inl same ↦ rw same (
        nothing-Does u db us (raised user_not_logged_in) (offline stored)
          (after_logout-raised (offline stored) (rw same) h
            (logout-offline u password db valid fits us free stored same h))
          h)
    | inr other ↦ rw other (
        nothing-Does u db us (done UnregisterResult.nok) (offline stored)
          (unregister-refused (offline stored) (ground arith) h) h)
  ]
  unregister-Does (online stored) h = elim (Bool-cases (bytes_eq stored password)) [
    | inl same ↦ rw same (
        let left = erase_login-Moves u valid db.fs us stored h in
        steps-Does u db us (done UnregisterResult.ok) unregistered (unregister-online stored same h)
          left.elsewhere
          (erase_password-Moves u valid (erase_login u db.fs).1 left.usable stored left.holds))
    | inr other ↦ rw other (
        nothing-Does u db us (done UnregisterResult.nok) (online stored)
          (unregister-refused (online stored) (ground arith) h) h)
  ]
