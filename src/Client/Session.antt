-- ===== src/Client/Session.antt =====
-- The user who is logged in at the client (client.cpp), and the commands that change it
-- (commands.cpp). What they print is not modelled.
pub mod Laws
use proj_rc.Base.{
  ℕ, Bool, true, false, not, Option, none, some, List, [], ◌∷◌, if◌then◌else◌, ◌==◌, Bytes,
  bytes_eq, codes,
}
use proj_rc.Shared.Outcome.{Outcome, ok, raised, ◌>>=◌}
use proj_rc.Shared.Verifications.{verify_user_id, verify_password}
use proj_rc.Shared.Convert.{convert_user_id, convert_password}
use proj_rc.Protocol.Adapter.Stream.{StreamMessage}
use proj_rc.Protocol.Account.{
  ClientLoginUser, ClientLogout, ClientUnregister, LoginStatus, LogoutStatus, UnregisterStatus,
  build_client_login_user, build_client_logout, build_client_unregister, read_server_login_user,
  read_server_logout, read_server_unregister,
}
use proj_rc.Client.Udp.{Network, send_udp_message_and_await_reply}
use proj_rc.Database.Auctions.Words.{words}

pub record Client : Type 0 where
  pub user_id : ℕ
  pub password : Bytes

-- LOGGED_OUT is 0.
abbrev pub logged_out : ℕ
logged_out = 0

-- A client that has just been made.
abbrev pub new_client : Client
new_client = record { user_id = logged_out; password = [] }

unfoldable pub login : ℕ → Bytes → Client → Client
login user_id password c = record { user_id = user_id; password = password }

-- `Client::logout`
unfoldable pub forget : Client → Client
forget c = record { user_id = logged_out; password = [] }

unfoldable pub is_logged_in : Client → Bool
is_logged_in c = not (c.user_id == logged_out)

unfoldable pub after_login : ℕ → Bytes → Option LoginStatus → Client → Client
unfolding login
after_login user_id password (some LoginStatus.ok) c = login user_id password c
after_login user_id password (some LoginStatus.reg) c = login user_id password c
after_login user_id password (some LoginStatus.nok) c = c
after_login user_id password (some LoginStatus.err) c = c
after_login user_id password none c = c

unfoldable pub left_after_logout : Option LogoutStatus → Client → Client
unfolding forget
left_after_logout (some LogoutStatus.ok) c = forget c
left_after_logout (some LogoutStatus.nok) c = c
left_after_logout (some LogoutStatus.unr) c = c
left_after_logout (some LogoutStatus.err) c = c
left_after_logout none c = c

unfoldable pub left_after_unregister : Option UnregisterStatus → Client → Client
unfolding forget
left_after_unregister (some UnregisterStatus.ok) c = forget c
left_after_unregister (some UnregisterStatus.nok) c = c
left_after_unregister (some UnregisterStatus.unr) c = c
left_after_unregister (some UnregisterStatus.err) c = c
left_after_unregister none c = c

-- The answer to a request to log in.
unfoldable pub login_reply : Network → ℕ → Bytes → Option LoginStatus
login_reply net user_id password =
    (send_udp_message_and_await_reply (read_server_login_user StreamMessage)
      (net (build_client_login_user (record { user_id = user_id; password = password })))).0

-- `LoginCommand::handle` with two arguments.
unfoldable pub login_with : Network → Bytes → Bytes → Client → Outcome Client
unfolding is_logged_in after_login login_reply
login_with net user_id password c =
    if is_logged_in c
    then ok c
    else if not (verify_user_id user_id)
    then ok c
    else if not (verify_password password)
    then ok c
    else convert_user_id user_id >>= λ uid.
        convert_password password >>= λ pw. ok (after_login uid pw (login_reply net uid pw) c)

unfoldable pub login_words : Network → List Bytes → Client → Outcome Client
unfolding login_with
login_words net (user_id ∷ password ∷ []) c = login_with net user_id password c
login_words net [] c = ok c
login_words net (w ∷ []) c = ok c
login_words net (v ∷ w ∷ x ∷ ws) c = ok c

unfoldable pub login_command : Network → Bytes → Client → Outcome Client
unfolding login_words words
login_command net args c = login_words net (words args) c

unfoldable pub logout_reply : Network → Client → Option LogoutStatus
logout_reply net c =
    (send_udp_message_and_await_reply (read_server_logout StreamMessage)
      (net (build_client_logout (record { user_id = c.user_id; password = c.password })))).0

unfoldable pub unregister_reply : Network → Client → Option UnregisterStatus
unregister_reply net c =
    (send_udp_message_and_await_reply (read_server_unregister StreamMessage)
      (net (build_client_unregister (record { user_id = c.user_id; password = c.password })))).0

unfoldable pub no_args : Bytes → Bool
no_args [] = true
no_args (b ∷ bs) = false

unfoldable pub logout_command : Network → Bytes → Client → Outcome Client
unfolding is_logged_in left_after_logout logout_reply no_args
logout_command net args c =
    if not (no_args args)
    then ok c
    else if not (is_logged_in c)
    then ok c
    else ok (left_after_logout (logout_reply net c) c)

unfoldable pub unregister_command : Network → Bytes → Client → Outcome Client
unfolding is_logged_in left_after_unregister unregister_reply no_args
unregister_command net args c =
    if not (no_args args)
    then ok c
    else if not (is_logged_in c)
    then ok c
    else ok (left_after_unregister (unregister_reply net c) c)

-- The commands that change the user; the others leave the client as it is or end the program.
pub data Command : Type 0 where
  log_in log_out unregister_user : Command

unfoldable pub handle : Command → Network → Bytes → Client → Outcome Client
unfolding login_command logout_command unregister_command
handle Command.log_in net args c = login_command net args c
handle Command.log_out net args c = logout_command net args c
handle Command.unregister_user net args c = unregister_command net args c

-- `main` catches what a command throws, and goes on.
abbrev pub caught : Client → Outcome Client → Client
caught c (ok c') = c'
caught c (raised e) = c

-- The loop of `main` over the commands that are given, each with what the network does to it.
unfoldable pub session : List (Command × Network × Bytes) → Client → Client
unfolding handle
session [] c = c
session ((command, net, args) ∷ more) c = session more (caught c (handle command net args c))
