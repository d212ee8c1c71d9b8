-- ===== src/Protocol/Account.antt =====
-- Login, logout and unregister messages (protocol.hpp, protocol.cpp): the client's requests and the
-- server's answers. A stream insertion of a uint32_t prints its decimal digits.
pub mod RoundTrip
use proj_rc.Base.{ℕ, ◌++◌, if◌then◌else◌, Bytes, bytes_eq, codes}
use proj_rc.Shared.Outcome.{Outcome, raised, invalid_message}
use proj_rc.Shared.Decimal.{to_string}
use proj_rc.Protocol.Adapter.{Adapter}
use proj_rc.Protocol.Reader.{
  Reader, ◌>>=◌, ◌>>◌, pure, lift, read_space, read_delimiter, read_user_id, read_password,
  read_string, read_message_id,
}
use proj_rc.Protocol.Codes.{
  code_login_user, code_login_server, code_logout_user, code_logout_server, code_unregister_user,
  code_unregister_server, space, endl,
}

abbrev pub max_status_size : ℕ
max_status_size = 3

pub record ClientLoginUser : Type 0 where
  pub user_id : ℕ
  pub password : Bytes

pub record ClientLogout : Type 0 where
  pub user_id : ℕ
  pub password : Bytes

pub record ClientUnregister : Type 0 where
  pub user_id : ℕ
  pub password : Bytes

unfoldable pub build_client_login_user : ClientLoginUser → Bytes
build_client_login_user m =
    code_login_user ++ (space ++ (to_string m.user_id ++ (space ++ (m.password ++ endl))))

unfoldable pub build_client_logout : ClientLogout → Bytes
build_client_logout m =
    code_logout_user ++ (space ++ (to_string m.user_id ++ (space ++ (m.password ++ endl))))

unfoldable pub build_client_unregister : ClientUnregister → Bytes
build_client_unregister m =
    code_unregister_user ++ (space ++ (to_string m.user_id ++ (space ++ (m.password ++ endl))))

pub data LoginStatus : Type 0 where
  ok nok reg err : LoginStatus

pub data LogoutStatus : Type 0 where
  ok nok unr err : LogoutStatus

pub data UnregisterStatus : Type 0 where
  ok nok unr err : UnregisterStatus

unfoldable pub login_status_text : LoginStatus → Bytes
login_status_text LoginStatus.ok = codes "OK"
login_status_text LoginStatus.nok = codes "NOK"
login_status_text LoginStatus.reg = codes "REG"
login_status_text LoginStatus.err = codes "ERR"

unfoldable pub logout_status_text : LogoutStatus → Bytes
logout_status_text LogoutStatus.ok = codes "OK"
logout_status_text LogoutStatus.nok = codes "NOK"
logout_status_text LogoutStatus.unr = codes "UNR"
logout_status_text LogoutStatus.err = codes "ERR"

unfoldable pub unregister_status_text : UnregisterStatus → Bytes
unregister_status_text UnregisterStatus.ok = codes "OK"
unregister_status_text UnregisterStatus.nok = codes "NOK"
unregister_status_text UnregisterStatus.unr = codes "UNR"
unregister_status_text UnregisterStatus.err = codes "ERR"

unfoldable pub parse_login_status : Bytes → Outcome LoginStatus
parse_login_status s =
    if bytes_eq s (codes "OK")
    then Outcome.ok LoginStatus.ok
    else if bytes_eq s (codes "NOK")
    then Outcome.ok LoginStatus.nok
    else if bytes_eq s (codes "REG")
    then Outcome.ok LoginStatus.reg
    else if bytes_eq s (codes "ERR")
    then Outcome.ok LoginStatus.err
    else raised invalid_message

unfoldable pub parse_logout_status : Bytes → Outcome LogoutStatus
parse_logout_status s =
    if bytes_eq s (codes "OK")
    then Outcome.ok LogoutStatus.ok
    else if bytes_eq s (codes "NOK")
    then Outcome.ok LogoutStatus.nok
    else if bytes_eq s (codes "UNR")
    then Outcome.ok LogoutStatus.unr
    else if bytes_eq s (codes "ERR")
    then Outcome.ok LogoutStatus.err
    else raised invalid_message

unfoldable pub parse_unregister_status : Bytes → Outcome UnregisterStatus
parse_unregister_status s =
    if bytes_eq s (codes "OK")
    then Outcome.ok UnregisterStatus.ok
    else if bytes_eq s (codes "NOK")
    then Outcome.ok UnregisterStatus.nok
    else if bytes_eq s (codes "UNR")
    then Outcome.ok UnregisterStatus.unr
    else if bytes_eq s (codes "ERR")
    then Outcome.ok UnregisterStatus.err
    else raised invalid_message

-- The last branch of `buildMessage`, which throws, is for a status outside of the enumeration.
unfoldable pub build_server_login_user : LoginStatus → Bytes
unfolding login_status_text
build_server_login_user status = code_login_server ++ (space ++ (login_status_text status ++ endl))

unfoldable pub build_server_logout : LogoutStatus → Bytes
unfolding logout_status_text
build_server_logout status = code_logout_server ++ (space ++ (logout_status_text status ++ endl))

unfoldable pub build_server_unregister : UnregisterStatus → Bytes
unfolding unregister_status_text
build_server_unregister status =
    code_unregister_server ++ (space ++ (unregister_status_text status ++ endl))

module _ (a : Adapter) where
  open a use {Source}

  -- The server has read the code of a request before.
  unfoldable pub read_client_login_user : Reader Source ClientLoginUser
  read_client_login_user = do
    read_space a
    user_id ← read_user_id a
    read_space a
    password ← read_password a
    read_delimiter a
    pure (record { user_id = user_id; password = password })

  unfoldable pub read_client_logout : Reader Source ClientLogout
  read_client_logout = do
    read_space a
    user_id ← read_user_id a
    read_space a
    password ← read_password a
    read_delimiter a
    pure (record { user_id = user_id; password = password })

  unfoldable pub read_client_unregister : Reader Source ClientUnregister
  read_client_unregister = do
    read_space a
    user_id ← read_user_id a
    read_space a
    password ← read_password a
    read_delimiter a
    pure (record { user_id = user_id; password = password })

  unfoldable pub read_server_login_user : Reader Source LoginStatus
  unfolding parse_login_status
  read_server_login_user = do
    read_message_id a code_login_server
    read_space a
    status_str ← read_string a max_status_size
    status ← lift (parse_login_status status_str)
    read_delimiter a
    pure status

  unfoldable pub read_server_logout : Reader Source LogoutStatus
  unfolding parse_logout_status
  read_server_logout = do
    read_message_id a code_logout_server
    read_space a
    status_str ← read_string a max_status_size
    status ← lift (parse_logout_status status_str)
    read_delimiter a
    pure status

  unfoldable pub read_server_unregister : Reader Source UnregisterStatus
  unfolding parse_unregister_status
  read_server_unregister = do
    read_message_id a code_unregister_server
    read_space a
    status_str ← read_string a max_status_size
    status ← lift (parse_unregister_status status_str)
    read_delimiter a
    pure status
