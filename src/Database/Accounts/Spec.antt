-- ===== src/Database/Accounts/Spec.antt =====
-- What the account operations promise, on the four states of an account: the answer and the state
-- that follows, with no mention of files.
use proj_rc.Base.{if◌then◌else◌, Bytes, bytes_eq}
use proj_rc.Shared.Outcome.{user_not_logged_in}
use proj_rc.Database.Monad.{Reply, done, raised}
use proj_rc.Database.Users.State.{Account, stranger, unregistered, offline, online}
use proj_rc.Database.Accounts.{LoginResult, LogoutResult, UnregisterResult}

-- A user without a password is registered with the one given.
abbrev pub login_spec : Bytes → Account → Reply LoginResult × Account
login_spec password stranger = (done LoginResult.register, online password)
login_spec password unregistered = (done LoginResult.register, online password)
login_spec password (offline stored) =
    if bytes_eq stored password
    then (done LoginResult.ok, online stored)
    else (done LoginResult.nok, offline stored)
login_spec password (online stored) =
    if bytes_eq stored password
    then (done LoginResult.ok, online stored)
    else (raised user_not_logged_in, online stored)

abbrev pub logout_spec : Bytes → Account → Reply LogoutResult × Account
logout_spec password stranger = (done LogoutResult.nok, stranger)
logout_spec password unregistered = (done LogoutResult.nok, unregistered)
logout_spec password (offline stored) =
    if bytes_eq stored password
    then (raised user_not_logged_in, offline stored)
    else (done LogoutResult.nok, offline stored)
logout_spec password (online stored) =
    if bytes_eq stored password
    then (done LogoutResult.ok, offline stored)
    else (done LogoutResult.nok, online stored)

abbrev pub unregister_spec : Bytes → Account → Reply UnregisterResult × Account
unregister_spec password stranger = (done UnregisterResult.nok, stranger)
unregister_spec password unregistered = (done UnregisterResult.nok, unregistered)
unregister_spec password (offline stored) =
    if bytes_eq stored password
    then (raised user_not_logged_in, offline stored)
    else (done UnregisterResult.nok, offline stored)
unregister_spec password (online stored) =
    if bytes_eq stored password
    then (done UnregisterResult.ok, unregistered)
    else (done UnregisterResult.nok, online stored)
