-- ===== src/Database/Accounts/Semaphore.antt =====
-- Every path through `LoginUser`, `Logout` and `Unregister` gives the semaphore back, whatever the
-- files and the arguments are, the paths that throw included.
use proj_rc.Base.{suc, ◌<◌, ◌∙◌, refl, arith, Bytes}
use proj_rc.Database.Monad.{Db, ◌>>=◌}
use proj_rc.Database.Monad.Runs.{Runs, waited-Runs, bind-Runs}
use proj_rc.Database.Users.{Creation, LoginErasure, create_user_dir, erase_login}
use proj_rc.Database.Accounts.{
  LogoutResult, register_user, login_known, login_by_dir, login_locked, login_user,
  logout_by_erasure, logout_locked, logout, unregister_by_erasure, erase_locked, after_logout,
  unregister_locked, unregister,
}

register_user-Runs : (u p : Bytes) (db : Db) → Runs (suc db.sem) (register_user u p db)
unfolding register_user
register_user-Runs u p db = (ground arith, ground arith)

login_known-Runs : (u p : Bytes) (db : Db) → Runs (suc db.sem) (login_known u p db)
unfolding login_known
login_known-Runs u p db =
    (ground (arith, register_user-Runs u p db), ground (arith, register_user-Runs u p db))

login_by_dir-Runs :
    (u p : Bytes) (c : Creation) (db : Db) → Runs (suc db.sem) (login_by_dir u p c db)
unfolding login_by_dir
login_by_dir-Runs u p Creation.failed db = (cc, refl)
login_by_dir-Runs u p Creation.existed db = login_known-Runs u p db
login_by_dir-Runs u p Creation.created db = register_user-Runs u p db

login_locked-Runs : (u p : Bytes) (db : Db) → Runs (suc db.sem) (login_locked u p db)
unfolding login_locked
login_locked-Runs u p db =
    let tried = create_user_dir u db.fs in
    let later = login_by_dir-Runs u p tried.0 (record db { fs = tried.1 }) in
    (ground (arith, later), ground (arith, later))

logout_by_erasure-Runs : (e : LoginErasure) (db : Db) → Runs (suc db.sem) (logout_by_erasure e db)
unfolding logout_by_erasure
logout_by_erasure-Runs LoginErasure.failed db = (cc, refl)
logout_by_erasure-Runs LoginErasure.erased db = (cc, refl)
logout_by_erasure-Runs LoginErasure.absent db = (cc, refl)

logout_locked-Runs : (u p : Bytes) (db : Db) → Runs (suc db.sem) (logout_locked u p db)
unfolding logout_locked
logout_locked-Runs u p db =
    let tried = erase_login u db.fs in
    let later = logout_by_erasure-Runs tried.0 (record db { fs = tried.1 }) in
    (ground (arith, later), ground (arith, later))

erase_locked-Runs : (u : Bytes) (db : Db) → Runs (suc db.sem) (erase_locked u db)
unfolding erase_locked unregister_by_erasure
erase_locked-Runs u db = (ground arith, ground arith)

-- From any files, for any texts as user id and password, with the semaphore free: `login_user`
-- does not block, and when it returns or throws the semaphore has the value that it had
-- before.
pub login_user-Runs : (u p : Bytes) (db : Db) → 0 < db.sem → Runs db.sem (login_user u p db)
unfolding login_user
login_user-Runs u p db free = waited-Runs (login_locked u p) db free (login_locked-Runs u p)

-- From any files, for any texts as user id and password, with the semaphore free: `logout`
-- does not block, and when it returns or throws the semaphore has the value that it had
-- before.
pub logout-Runs : (u p : Bytes) (db : Db) → 0 < db.sem → Runs db.sem (logout u p db)
unfolding logout
logout-Runs u p db free = waited-Runs (logout_locked u p) db free (logout_locked-Runs u p)

after_logout-Runs :
    (u : Bytes) (left : LogoutResult) (db : Db) → 0 < db.sem → Runs db.sem (after_logout u left db)
unfolding after_logout
after_logout-Runs u LogoutResult.nok db free = (cc, refl)
after_logout-Runs u LogoutResult.ok db free =
    waited-Runs (erase_locked u) db free (erase_locked-Runs u)
after_logout-Runs u LogoutResult.unregistered db free =
    waited-Runs (erase_locked u) db free (erase_locked-Runs u)

logout_then-Runs :
    (u p : Bytes) (db : Db) → 0 < db.sem → Runs db.sem ((logout u p >>= after_logout u) db)
logout_then-Runs u p db free =
    bind-Runs (logout u p) (after_logout u) db _ refl (logout-Runs u p db free) λ left at same.
      let later = after_logout-Runs u left at (omega arith) in (later.0, later.1 ∙ same)

unregister_locked-Runs : (u p : Bytes) (db : Db) → Runs (suc db.sem) (unregister_locked u p db)
unfolding unregister_locked
unregister_locked-Runs u p db =
    let later = logout_then-Runs u p (record db { sem = suc db.sem }) (omega arith) in
    (ground (arith, later), ground (arith, later))

-- From any files, for any texts as user id and password, with the semaphore free: `unregister`
-- does not block, and when it returns or throws the semaphore has the value that it had
-- before.
pub unregister-Runs : (u p : Bytes) (db : Db) → 0 < db.sem → Runs db.sem (unregister u p db)
unfolding unregister
unregister-Runs u p db free =
    waited-Runs (unregister_locked u p) db free (unregister_locked-Runs u p)
