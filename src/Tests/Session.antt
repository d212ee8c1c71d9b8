-- ===== src/Tests/Session.antt =====
-- The client, with a network that answers at once or never.
use proj_rc.Base.{◌≡◌, ◌∷◌, [], refl, inl, false, arith, codes}
use proj_rc.Shared.Outcome.{ok}
use proj_rc.Shared.Decimal.{to_string}
use proj_rc.Shared.Convert.{convert_user_id}
use proj_rc.Shared.Convert.Laws.{convert_user_id-to_string}
use proj_rc.Protocol.Adapter.Stream.{StreamMessage}
use proj_rc.Protocol.Account.{
  LoginStatus, build_server_login_user, read_server_login_user, read_server_logout,
  read_server_unregister,
}
use proj_rc.Client.Udp.{Network, Attempt, send_udp_message_and_await_reply, exchanged}
use proj_rc.Client.Udp.Once.{answer_of, send_udp-IsOnce}
use proj_rc.Client.Session.{Command, new_client, login_command, is_logged_in, session}
use proj_rc.Client.Session.Laws.{IsSession, session-IsSession, login_command-Follows}
use proj_rc.Database.Auctions.Words.{words}
use proj_rc.Tests.Data.{user, password, password-valid}

abbrev silence : Network
silence request left = Attempt.times_out

abbrev registers : Network
registers request left = Attempt.receives (build_server_login_user LoginStatus.reg)

send_udp-IsOnce_example :
    (send_udp_message_and_await_reply (read_server_login_user StreamMessage) (silence [])
      ≡ (answer_of (exchanged (read_server_login_user StreamMessage) Attempt.times_out), 1))
    × ((send_udp_message_and_await_reply (read_server_logout StreamMessage) (silence [])
          ≡ (answer_of (exchanged (read_server_logout StreamMessage) Attempt.times_out), 1))
        × (send_udp_message_and_await_reply (read_server_unregister StreamMessage) (silence [])
            ≡ (answer_of (exchanged (read_server_unregister StreamMessage) Attempt.times_out), 1)))
send_udp-IsOnce_example = send_udp-IsOnce (silence [])

new_client-IsSession : IsSession new_client
unfolding IsSession
new_client-IsSession = inl refl

session-IsSession_example : IsSession (
    session
      ((Command.log_in, registers, codes "123456 password") ∷ (Command.log_out, silence, []) ∷ [])
      new_client)
session-IsSession_example =
    session-IsSession
      ((Command.log_in, registers, codes "123456 password") ∷ (Command.log_out, silence, []) ∷ [])
      new_client new_client-IsSession

two_words : words (codes "123456 password") ≡ user ∷ password ∷ []
unfolding words
two_words = refl

nobody : is_logged_in new_client ≡ false
unfolding is_logged_in
nobody = refl

converts : convert_user_id user ≡ ok 123_456
unfolding to_string
converts = convert_user_id-to_string 123_456 (omega arith) (omega arith)

login_command-Follows_example :
    login_command registers (codes "123456 password") new_client
    ≡ ok (record { user_id = 123_456; password = password })
login_command-Follows_example =
    login_command-Follows registers (codes "123456 password") user password 123_456 LoginStatus.reg
      new_client two_words nobody converts password-valid refl
