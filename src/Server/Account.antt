-- ===== src/Server/Account.antt =====
-- `LoginRequest::handle`, `LogoutRequest::handle` and `UnregisterRequest::handle` (handlers.cpp).
-- What they print in verbose mode is not modelled. The user id goes to the database by
-- `std::to_string`, without padding.
pub mod Spec
pub mod Laws
use proj_rc.Base.{Bytes}
use proj_rc.Shared.Outcome.{Outcome, raised}
use proj_rc.Shared.Decimal.{to_string}
use proj_rc.Protocol.Adapter.{Adapter}
use proj_rc.Protocol.Account.{
  ClientLoginUser, ClientLogout, ClientUnregister, LoginStatus, LogoutStatus, UnregisterStatus,
  read_client_login_user, read_client_logout, read_client_unregister, build_server_login_user,
  build_server_logout, build_server_unregister,
}
use proj_rc.Database.Monad.{Db, Reply, done, blocked}
use proj_rc.Database.Accounts.{
  LoginResult, LogoutResult, UnregisterResult, login_user, logout, unregister,
}
use proj_rc.Server.Handled.{Handled, answered, unanswered, waiting, on_exception}

unfoldable pub login_status : LoginResult → LoginStatus
login_status LoginResult.nok = LoginStatus.nok
login_status LoginResult.ok = LoginStatus.ok
login_status LoginResult.register = LoginStatus.reg

unfoldable pub logout_status : LogoutResult → LogoutStatus
logout_status LogoutResult.nok = LogoutStatus.nok
logout_status LogoutResult.ok = LogoutStatus.ok
logout_status LogoutResult.unregistered = LogoutStatus.unr

unfoldable pub unregister_status : UnregisterResult → UnregisterStatus
unregister_status UnregisterResult.nok = UnregisterStatus.nok
unregister_status UnregisterResult.ok = UnregisterStatus.ok
unregister_status UnregisterResult.unknown = UnregisterStatus.unr

unfoldable pub answer_login : Reply LoginResult → Handled
answer_login (done r) = answered (build_server_login_user (login_status r))
answer_login (Reply.raised e) = on_exception (build_server_login_user LoginStatus.err) e
answer_login blocked = waiting

unfoldable pub answer_logout : Reply LogoutResult → Handled
answer_logout (done r) = answered (build_server_logout (logout_status r))
answer_logout (Reply.raised e) = on_exception (build_server_logout LogoutStatus.err) e
answer_logout blocked = waiting

unfoldable pub answer_unregister : Reply UnregisterResult → Handled
answer_unregister (done r) = answered (build_server_unregister (unregister_status r))
answer_unregister (Reply.raised e) = on_exception (build_server_unregister UnregisterStatus.err) e
answer_unregister blocked = waiting

module _ (a : Adapter) where
  open a use {Source}

  handle_login_message : Db → Outcome (ClientLoginUser × Source) → Handled × Db
  handle_login_message db (Outcome.ok (m, s)) =
      let (r, db') = login_user (to_string m.user_id) m.password db in (answer_login r, db')
  handle_login_message db (raised e) =
      (on_exception (build_server_login_user LoginStatus.err) e, db)

  unfoldable pub handle_login : Source → Db → Handled × Db
  unfolding handle_login_message
  handle_login s db = handle_login_message db (read_client_login_user a s)

  handle_logout_message : Db → Outcome (ClientLogout × Source) → Handled × Db
  handle_logout_message db (Outcome.ok (m, s)) =
      let (r, db') = logout (to_string m.user_id) m.password db in (answer_logout r, db')
  handle_logout_message db (raised e) = (on_exception (build_server_logout LogoutStatus.err) e, db)

  unfoldable pub handle_logout : Source → Db → Handled × Db
  unfolding handle_logout_message
  handle_logout s db = handle_logout_message db (read_client_logout a s)

  handle_unregister_message : Db → Outcome (ClientUnregister × Source) → Handled × Db
  handle_unregister_message db (Outcome.ok (m, s)) =
      let (r, db') = unregister (to_string m.user_id) m.password db in (answer_unregister r, db')
  handle_unregister_message db (raised e) =
      (on_exception (build_server_unregister UnregisterStatus.err) e, db)

  unfoldable pub handle_unregister : Source → Db → Handled × Db
  unfolding handle_unregister_message
  handle_unregister s db = handle_unregister_message db (read_client_unregister a s)
