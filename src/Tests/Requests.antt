-- ===== src/Tests/Requests.antt =====
-- Requests about accounts, and the choice of a handler.
use proj_rc.Base.{◌≡◌, refl, none, arith, [], ◌∷◌, ◌++◌, codes}
use proj_rc.Shared.Decimal.{to_string}
use proj_rc.Shared.Convert.{convert_user_id_to_str}
use proj_rc.Protocol.Adapter.Stream.{Stream, of_bytes, StreamMessage, StreamMessage-IsLawful}
use proj_rc.Protocol.Codes.{space}
use proj_rc.Protocol.Account.{
  ClientLoginUser, LoginStatus, build_client_login_user, build_client_logout,
  build_client_unregister, build_server_login_user,
}
use proj_rc.Database.Users.State.{stranger, unregistered, offline, online}
use proj_rc.Database.Accounts.Does.{Does}
use proj_rc.Server.Handled.{answered}
use proj_rc.Server.Account.{handle_login, handle_logout, handle_unregister}
use proj_rc.Server.Account.Laws.{
  handle_login-Does, handle_logout-Does, handle_unregister-Does, handle_login-short_id,
  handle_login-padded_id,
}
use proj_rc.Server.Dispatch.{udp_message, select_handler, register_request_handlers}
use proj_rc.Server.Dispatch.Laws.{select_handler-udp_unknown}
use proj_rc.Tests.Data.{
  password, user, no_users, user_online, db_of, no_users-IsUsable, user_online-IsUsable,
  no_users-stranger, user_online-online, password-valid,
}
use proj_rc.Tests.Wire.{login_message, logout_message, unregister_message, request}

handle_login-Does_example :
    Does user
      (db_of no_users)
      (handle_login StreamMessage
        (request (build_client_login_user login_message))
        (db_of no_users))
      (answered (codes "RLI REG" ++ (10 ∷ [])), online password)
unfolding to_string
handle_login-Does_example =
    handle_login-Does StreamMessage StreamMessage-IsLawful login_message
      (request (build_client_login_user login_message)) [] (db_of no_users) stranger (omega arith)
      (omega arith) password-valid refl no_users-IsUsable (omega arith) no_users-stranger

handle_logout-Does_example :
    Does user
      (db_of user_online)
      (handle_logout StreamMessage
        (request (build_client_logout logout_message))
        (db_of user_online))
      (answered (codes "RLO OK" ++ (10 ∷ [])), offline password)
unfolding to_string
handle_logout-Does_example =
    handle_logout-Does StreamMessage StreamMessage-IsLawful logout_message
      (request (build_client_logout logout_message)) [] (db_of user_online) (online password)
      (omega arith) (omega arith) password-valid refl user_online-IsUsable (omega arith)
      user_online-online

handle_unregister-Does_example :
    Does user
      (db_of user_online)
      (handle_unregister StreamMessage
        (request (build_client_unregister unregister_message))
        (db_of user_online))
      (answered (codes "RUR OK" ++ (10 ∷ [])), unregistered)
unfolding to_string
handle_unregister-Does_example =
    handle_unregister-Does StreamMessage StreamMessage-IsLawful unregister_message
      (request (build_client_unregister unregister_message)) [] (db_of user_online)
      (online password) (omega arith) (omega arith) password-valid refl user_online-IsUsable
      (omega arith) user_online-online

abbrev short_login : ClientLoginUser
short_login = record { user_id = 42; password = password }

handle_login-short_id_example :
    handle_login StreamMessage (request (build_client_login_user short_login)) (db_of no_users)
    ≡ (answered (build_server_login_user LoginStatus.err), db_of no_users)
handle_login-short_id_example =
    handle_login-short_id StreamMessage StreamMessage-IsLawful short_login
      (request (build_client_login_user short_login)) [] (db_of no_users) (omega arith) refl

abbrev padded_request : Stream
padded_request =
    of_bytes (space ++ (convert_user_id_to_str 42 ++ (space ++ (password ++ (10 ∷ [])))))

handle_login-padded_id_example :
    handle_login StreamMessage padded_request (db_of no_users)
    ≡ (answered (build_server_login_user LoginStatus.nok), db_of no_users)
handle_login-padded_id_example =
    handle_login-padded_id StreamMessage StreamMessage-IsLawful short_login padded_request []
      (db_of no_users) (omega arith) (omega arith) password-valid refl (omega arith)

select_handler-udp_unknown_example :
    select_handler register_request_handlers udp_message (codes "XYZ") ≡ none
select_handler-udp_unknown_example =
    select_handler-udp_unknown (codes "XYZ") (ground arith) (ground arith) (ground arith)
      (ground arith) (ground arith) (ground arith) (ground arith)
