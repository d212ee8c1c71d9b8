-- ===== src/Tests/Accounts.antt =====
-- The database operations on accounts.
use proj_rc.Base.{◌≡◌, ◌≢◌, true, refl, arith}
use proj_rc.Shared.Verifications.{verify_user_id}
use proj_rc.Database.Monad.{done, blocked}
use proj_rc.Database.Users.State.{stranger, unregistered, offline, online}
use proj_rc.Database.Accounts.{
  LoginResult, LogoutResult, UnregisterResult, login_user, logout, unregister,
}
use proj_rc.Database.Accounts.Does.{Does}
use proj_rc.Database.Accounts.Login.{login_user-Does}
use proj_rc.Database.Accounts.Logout.{logout-Does}
use proj_rc.Database.Accounts.Unregister.{unregister-Does}
use proj_rc.Database.Accounts.Semaphore.{login_user-Runs, logout-Runs, unregister-Runs}
use proj_rc.Tests.Data.{
  password, other_password, user, no_users, user_offline, user_online, db_of, no_users-IsUsable,
  user_online-IsUsable, no_users-stranger, user_online-online, password-valid,
}

user-valid : verify_user_id user ≡ true
unfolding verify_user_id
user-valid = refl

login_user-Does_example :
    Does user
      (db_of no_users)
      (login_user user password (db_of no_users))
      (done LoginResult.register, online password)
login_user-Does_example =
    login_user-Does user password (db_of no_users) user-valid password-valid no_users-IsUsable
      (omega arith) stranger no_users-stranger

logout-Does_example :
    Does user
      (db_of user_online)
      (logout user password (db_of user_online))
      (done LogoutResult.ok, offline password)
logout-Does_example =
    logout-Does user password (db_of user_online) user-valid password-valid user_online-IsUsable
      (omega arith) (online password) user_online-online

unregister-Does_example :
    Does user
      (db_of user_online)
      (unregister user password (db_of user_online))
      (done UnregisterResult.ok, unregistered)
unregister-Does_example =
    unregister-Does user password (db_of user_online) user-valid password-valid user_online-IsUsable
      (omega arith) (online password) user_online-online

login_user-Runs_example :
    ((login_user user other_password (db_of user_online)).0 ≢ blocked)
    × ((login_user user other_password (db_of user_online)).1.sem ≡ 1)
login_user-Runs_example = login_user-Runs user other_password (db_of user_online) (omega arith)

logout-Runs_example :
    ((logout user password (db_of user_offline)).0 ≢ blocked)
    × ((logout user password (db_of user_offline)).1.sem ≡ 1)
logout-Runs_example = logout-Runs user password (db_of user_offline) (omega arith)

unregister-Runs_example :
    ((unregister user password (db_of user_online)).0 ≢ blocked)
    × ((unregister user password (db_of user_online)).1.sem ≡ 1)
unregister-Runs_example = unregister-Runs user password (db_of user_online) (omega arith)
