-- ===== src/Server/Account/Spec.antt =====
-- The answers that the account requests promise, on the four states of an account, byte for byte.
use proj_rc.Base.{if◌then◌else◌, ◌++◌, Bytes, bytes_eq, codes, ◌≡◌, refl, inl, inr, Bool-cases}
use proj_rc.Protocol.Codes.{endl}
use proj_rc.Database.Users.State.{Account, stranger, unregistered, offline, online}
use proj_rc.Database.Accounts.Spec.{login_spec, logout_spec, unregister_spec}
use proj_rc.Server.Handled.{Handled, answered, unanswered}
use proj_rc.Server.Account.{
  answer_login, answer_logout, answer_unregister, login_status, logout_status, unregister_status,
}
use proj_rc.Protocol.Account.{build_server_login_user, build_server_logout, build_server_unregister}

abbrev pub login_answer : Bytes → Account → Handled
login_answer password stranger = answered (codes "RLI REG" ++ endl)
login_answer password unregistered = answered (codes "RLI REG" ++ endl)
login_answer password (offline stored) =
    if bytes_eq stored password
    then answered (codes "RLI OK" ++ endl)
    else answered (codes "RLI NOK" ++ endl)
login_answer password (online stored) =
    if bytes_eq stored password then answered (codes "RLI OK" ++ endl) else unanswered

abbrev pub logout_answer : Bytes → Account → Handled
logout_answer password stranger = answered (codes "RLO NOK" ++ endl)
logout_answer password unregistered = answered (codes "RLO NOK" ++ endl)
logout_answer password (offline stored) =
    if bytes_eq stored password then unanswered else answered (codes "RLO NOK" ++ endl)
logout_answer password (online stored) =
    if bytes_eq stored password
    then answered (codes "RLO OK" ++ endl)
    else answered (codes "RLO NOK" ++ endl)

abbrev pub unregister_answer : Bytes → Account → Handled
unregister_answer password stranger = answered (codes "RUR NOK" ++ endl)
unregister_answer password unregistered = answered (codes "RUR NOK" ++ endl)
unregister_answer password (offline stored) =
    if bytes_eq stored password then unanswered else answered (codes "RUR NOK" ++ endl)
unregister_answer password (online stored) =
    if bytes_eq stored password
    then answered (codes "RUR OK" ++ endl)
    else answered (codes "RUR NOK" ++ endl)

pub answer_login-eq :
    (password : Bytes) (account : Account)
    → answer_login (login_spec password account).0 ≡ login_answer password account
unfolding answer_login login_status build_server_login_user
answer_login-eq password stranger = refl
answer_login-eq password unregistered = refl
answer_login-eq password (offline stored) = elim (Bool-cases (bytes_eq stored password)) [
  | inl same ↦ rw same
  | inr other ↦ rw other
]
answer_login-eq password (online stored) = elim (Bool-cases (bytes_eq stored password)) [
  | inl same ↦ rw same
  | inr other ↦ rw other
]

pub answer_logout-eq :
    (password : Bytes) (account : Account)
    → answer_logout (logout_spec password account).0 ≡ logout_answer password account
unfolding answer_logout logout_status build_server_logout
answer_logout-eq password stranger = refl
answer_logout-eq password unregistered = refl
answer_logout-eq password (offline stored) = elim (Bool-cases (bytes_eq stored password)) [
  | inl same ↦ rw same
  | inr other ↦ rw other
]
answer_logout-eq password (online stored) = elim (Bool-cases (bytes_eq stored password)) [
  | inl same ↦ rw same
  | inr other ↦ rw other
]

pub answer_unregister-eq :
    (password : Bytes) (account : Account)
    → answer_unregister (unregister_spec password account).0 ≡ unregister_answer password account
unfolding answer_unregister unregister_status build_server_unregister
answer_unregister-eq password stranger = refl
answer_unregister-eq password unregistered = refl
answer_unregister-eq password (offline stored) = elim (Bool-cases (bytes_eq stored password)) [
  | inl same ↦ rw same
  | inr other ↦ rw other
]
answer_unregister-eq password (online stored) = elim (Bool-cases (bytes_eq stored password)) [
  | inl same ↦ rw same
  | inr other ↦ rw other
]
