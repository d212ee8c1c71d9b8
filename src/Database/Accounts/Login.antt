-- ===== src/Database/Accounts/Login.antt =====
-- `LoginUser` on files refines the specification of a login.
use proj_rc.Base.{
  ◌<◌, true, false, ◌≡◌, refl, arith, if◌then◌else◌, Bytes, bytes_eq, ◌∙◌, Bool-cases, inl, inr,
}
use proj_rc.Shared.Outcome.{user_not_logged_in}
use proj_rc.Shared.Verifications.{verify_user_id, verify_password}
use proj_rc.Database.Files.{FileSystem}
use proj_rc.Database.Monad.{Db, done, raised, wait_then}
use proj_rc.Database.Users.{create_user_dir, create_login, create_password, check_user_logged_in}
use proj_rc.Database.Users.State.{
  Account, stranger, unregistered, offline, online, Represents, IsUsable, SameElsewhere-trans,
}
use proj_rc.Database.Users.Checks.{
  check_user_logged_in-eq, check_user_registered-eq, correct_password-eq,
}
use proj_rc.Database.Users.Laws.{
  create_password-Moves, create_login-Moves, create_user_dir-known, create_user_dir-Moves,
}
use proj_rc.Database.Accounts.{LoginResult, login_user, login_locked}
use proj_rc.Database.Accounts.Spec.{login_spec}
use proj_rc.Database.Accounts.Does.{Does, nothing-Does, steps-Does, taken}

-- The tree with a password and a login for `u`.
abbrev registered_fs : Bytes → Bytes → FileSystem → FileSystem
registered_fs u password fs = (create_login u (create_password u password fs).1).1

module _ (u password : Bytes) (db : Db) (valid : verify_user_id u ≡ true)
    (fits : verify_password password ≡ true) (us : IsUsable db.fs) (free : 0 < db.sem) where
  login-taken : login_user u password db ≡ login_locked u password (taken db)
  unfolding login_user
  login-taken = wait_then (login_locked u password) db free

  login-online :
      (stored : Bytes)
      → Represents db.fs.entries u (online stored)
      → login_locked u password (taken db) ≡ ((login_spec password (online stored)).0, db)
  unfolding login_locked
  login-online stored h = ground (
    arith,
    check_user_logged_in-eq u valid db.fs (online stored) h,
    correct_password-eq u valid db.fs password (online stored) fits h,
  )

  login-offline :
      (stored : Bytes)
      → Represents db.fs.entries u (offline stored)
      → login_locked u password (taken db) ≡ (
          if bytes_eq stored password
          then (done LoginResult.ok, record db { fs = (create_login u db.fs).1 })
          else (done LoginResult.nok, db))
  unfolding login_locked
  login-offline stored h = ground (
    arith,
    check_user_logged_in-eq u valid db.fs (offline stored) h,
    check_user_registered-eq u valid db.fs (offline stored) h,
    create_user_dir-known u valid db.fs us h.0.at_dir,
    correct_password-eq u valid db.fs password (offline stored) fits h,
    (create_login-Moves u valid db.fs us stored h).returned,
  )

  login-unregistered :
      Represents db.fs.entries u unregistered
      → login_locked u password (taken db)
        ≡ (done LoginResult.register, record db { fs = registered_fs u password db.fs })
  unfolding login_locked
  login-unregistered h =
      let m = create_password-Moves u valid db.fs us password fits h in
      ground (
        arith,
        check_user_logged_in-eq u valid db.fs unregistered h,
        check_user_registered-eq u valid db.fs unregistered h,
        create_user_dir-known u valid db.fs us h.at_dir,
        m.returned,
        (create_login-Moves u valid _ m.usable password m.holds).returned,
      )

  login-stranger :
      Represents db.fs.entries u stranger
      → login_locked u password (taken db) ≡ (
        done LoginResult.register,
        record db { fs = registered_fs u password (create_user_dir u db.fs).1 },
      )
  unfolding login_locked
  login-stranger h =
      let d = create_user_dir-Moves u valid db.fs us h in
      let m = create_password-Moves u valid _ d.usable password fits d.holds in
      ground (
        arith,
        check_user_logged_in-eq u valid db.fs stranger h,
        d.returned,
        m.returned,
        (create_login-Moves u valid _ m.usable password m.holds).returned,
      )

  -- `login_user`, for a user id and a password that the checks accept, on usable files
  -- (`IsUsable`), a free semaphore and the user in any of the four account states, answers
  -- and leaves the account as `login_spec` says, leaves the files of all other users as they
  -- were and the tree usable, and leaves the semaphore as it was.
  pub login_user-Does :
      (account : Account)
      → Represents db.fs.entries u account
      → Does u db (login_user u password db) (login_spec password account)
  login_user-Does stranger h =
      let d = create_user_dir-Moves u valid db.fs us h in
      let m = create_password-Moves u valid _ d.usable password fits d.holds in
      steps-Does u db us (done LoginResult.register) (online password)
        (login-taken ∙ login-stranger h)
        (SameElsewhere-trans u db.fs.entries (create_user_dir u db.fs).1.entries _ d.elsewhere
          m.elsewhere)
        (create_login-Moves u valid _ m.usable password m.holds)
  login_user-Does unregistered h =
      let m = create_password-Moves u valid db.fs us password fits h in
      steps-Does u db us (done LoginResult.register) (online password)
        (login-taken ∙ login-unregistered h) m.elsewhere
        (create_login-Moves u valid _ m.usable password m.holds)
  login_user-Does (offline stored) h = elim (Bool-cases (bytes_eq stored password)) [
    | inl same ↦ rw same (
        steps-Does u db us (done LoginResult.ok) (online stored)
          (login-taken ∙ (login-offline stored h ∙ rw same)) (λ q o. refl)
          (create_login-Moves u valid db.fs us stored h))
    | inr other ↦ rw other (
        nothing-Does u db us (done LoginResult.nok) (offline stored)
          (login-taken ∙ (login-offline stored h ∙ rw other)) h)
  ]
  login_user-Does (online stored) h = elim (Bool-cases (bytes_eq stored password)) [
    | inl same ↦ rw same (
        nothing-Does u db us (done LoginResult.ok) (online stored)
          (login-taken ∙ (login-online stored h ∙ rw same)) h)
    | inr other ↦ rw other (
        nothing-Does u db us (raised user_not_logged_in) (online stored)
          (login-taken ∙ (login-online stored h ∙ rw other)) h)
  ]

-- A text that is no user id is turned away, and nothing changes.
pub login_user-invalid :
    (u password : Bytes) (db : Db)
    → verify_user_id u ≡ false
    → 0 < db.sem
    → login_user u password db ≡ (done LoginResult.nok, db)
unfolding login_user
login_user-invalid u password db invalid free =
    wait_then (login_locked u password) db free
    ∙ (unfold login_locked check_user_logged_in create_user_dir in ground (arith, invalid))
