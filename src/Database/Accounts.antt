-- ===== src/Database/Accounts.antt =====
-- `LoginUser`, `Logout` and `Unregister` (database.cpp).
pub mod Spec
pub mod Does
pub mod Login
pub mod Logout
pub mod Unregister
pub mod Semaphore
use proj_rc.Base.{Bool, true, false, not, if◌then◌else◌, Bytes}
use proj_rc.Shared.Outcome.{user_not_logged_in}
use proj_rc.Database.Monad.{
  Db, Action, Reply, done, pure, throw, asks, changes, ◌>>=◌, ◌>>◌, semaphore_wait, semaphore_post,
  post_return,
}
use proj_rc.Database.Users.{
  check_user_logged_in, check_user_registered, Creation, create_user_dir, create_login,
  create_password, LoginErasure, erase_login, PasswordErasure, erase_password, correct_password,
  is_correct,
}

-- DB_LOGIN_NOK, DB_LOGIN_OK and DB_LOGIN_REGISTER.
pub data LoginResult : Type 0 where
  nok ok register : LoginResult

-- DB_LOGOUT_NOK, DB_LOGOUT_OK and DB_LOGOUT_UNREGISTERED.
pub data LogoutResult : Type 0 where
  nok ok unregistered : LogoutResult

-- DB_UNREGISTER_NOK, DB_UNREGISTER_OK and DB_UNREGISTER_UNKNOWN.
pub data UnregisterResult : Type 0 where
  nok ok unknown : UnregisterResult

-- Registers the user: `CreatePassword`, then `CreateLogin`.
register_user : Bytes → Bytes → Action LoginResult
unfolding post_return
register_user user_id password = do
  has_password ← changes (create_password user_id password)
  if not has_password then post_return LoginResult.nok else do
    has_login ← changes (create_login user_id)
    if not has_login then post_return LoginResult.nok else post_return LoginResult.register

-- A directory of the user was there: `created_user == 2`.
login_known : Bytes → Bytes → Action LoginResult
unfolding post_return register_user
login_known user_id password = do
  registered ← asks (check_user_registered user_id)
  if not registered then register_user user_id password else do
    check ← asks (correct_password user_id password)
    if not (is_correct check) then post_return LoginResult.nok else do
      has_login ← changes (create_login user_id)
      if not has_login then post_return LoginResult.nok else post_return LoginResult.ok

login_by_dir : Bytes → Bytes → Creation → Action LoginResult
unfolding post_return register_user login_known
login_by_dir user_id password Creation.failed = post_return LoginResult.nok
login_by_dir user_id password Creation.existed = login_known user_id password
login_by_dir user_id password Creation.created = register_user user_id password

-- The user is logged in already.
login_again : Bytes → Bytes → Action LoginResult
unfolding post_return semaphore_post
login_again user_id password = do
  check ← asks (correct_password user_id password)
  if not (is_correct check)
      then (semaphore_post >> throw user_not_logged_in)
      else post_return LoginResult.ok

-- What runs between the wait and the post.
unfoldable pub login_locked : Bytes → Bytes → Action LoginResult
unfolding login_again login_by_dir
login_locked user_id password = do
  logged_in ← asks (check_user_logged_in user_id)
  if logged_in then login_again user_id password else do
    created_user ← changes (create_user_dir user_id)
    login_by_dir user_id password created_user

unfoldable pub login_user : Bytes → Bytes → Action LoginResult
login_user user_id password = semaphore_wait >> login_locked user_id password

logout_by_erasure : LoginErasure → Action LogoutResult
unfolding post_return semaphore_post
logout_by_erasure LoginErasure.failed = post_return LogoutResult.unregistered
logout_by_erasure LoginErasure.erased = post_return LogoutResult.ok
logout_by_erasure LoginErasure.absent = semaphore_post >> throw user_not_logged_in

unfoldable pub logout_locked : Bytes → Bytes → Action LogoutResult
unfolding post_return logout_by_erasure
logout_locked user_id password = do
  check ← asks (correct_password user_id password)
  if not (is_correct check)
      then post_return LogoutResult.nok
      else do removed_login ← changes (erase_login user_id); logout_by_erasure removed_login

unfoldable pub logout : Bytes → Bytes → Action LogoutResult
logout user_id password = semaphore_wait >> logout_locked user_id password

unregister_by_erasure : PasswordErasure → Action UnregisterResult
unfolding post_return
unregister_by_erasure PasswordErasure.failed = post_return UnregisterResult.nok
unregister_by_erasure PasswordErasure.erased = post_return UnregisterResult.ok
unregister_by_erasure PasswordErasure.unknown_user = post_return UnregisterResult.unknown

unfoldable pub erase_locked : Bytes → Action UnregisterResult
unfolding unregister_by_erasure
erase_locked user_id = do
  erased_password ← changes (erase_password user_id)
  unregister_by_erasure erased_password

after_logout : Bytes → LogoutResult → Action UnregisterResult
after_logout user_id LogoutResult.nok = pure UnregisterResult.nok
after_logout user_id _ = semaphore_wait >> erase_locked user_id

-- The semaphore is given back before the call of `Logout`, and taken again behind it.
unfoldable pub unregister_locked : Bytes → Bytes → Action UnregisterResult
unfolding semaphore_post post_return after_logout
unregister_locked user_id password = do
  check ← asks (correct_password user_id password)
  if not (is_correct check)
      then post_return UnregisterResult.nok
      else do semaphore_post; left ← logout user_id password; after_logout user_id left

unfoldable pub unregister : Bytes → Bytes → Action UnregisterResult
unregister user_id password = semaphore_wait >> unregister_locked user_id password
