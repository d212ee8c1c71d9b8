-- ===== src/Client/Session/Laws.antt =====
-- Who the client takes to be logged in.
use proj_rc.Base.{
  ℕ, ◌<◌, ◌≡◌, ◌∙◌, ◌⊎◌, inl, inr, refl, ap, Bool, if◌then◌else◌, Bool-cases, true, false, not,
  Option, some, none, List, [], ◌∷◌, ◌++◌, Bytes, arith, take,
}
use proj_rc.Shared.Outcome.{Outcome, ok, raised, invalid_message, ◌>>=◌}
use proj_rc.Shared.Verifications.{verify_user_id, verify_password}
use proj_rc.Shared.Convert.{convert_user_id, convert_password}
use proj_rc.Shared.Convert.Laws.{to_str-convert_user_id}
use proj_rc.Protocol.Adapter.Stream.{StreamMessage, StreamMessage-IsLawful, of_bytes}
use proj_rc.Protocol.Account.{
  LoginStatus, LogoutStatus, UnregisterStatus, build_client_login_user, build_server_login_user,
  read_server_login_user,
}
use proj_rc.Protocol.Account.RoundTrip.{read-build_server_login_user}
use proj_rc.Database.Auctions.Words.{words}
use proj_rc.Client.Udp.{Network, Attempt, exchanged, message_of, udp_socket_buffer_len}
use proj_rc.Client.Udp.Once.{answer_of, send_udp-IsOnce}
use proj_rc.Client.Session.{
  Client, Command, new_client, is_logged_in, login, forget, after_login, left_after_logout,
  left_after_unregister, login_reply, logout_reply, unregister_reply, login_with, login_words,
  login_command, logout_command, unregister_command, no_args, handle, caught, session,
}

-- No user, or one with an id from 1 to 999999 and a password that `verify_password` accepts.
unfoldable pub IsSession : Client → Type 0
IsSession c =
    (c ≡ new_client)
    ⊎ ((0 < c.user_id) × (c.user_id < 1_000_000) × (verify_password c.password ≡ true))

after_login-IsSession :
    (uid : ℕ) (pw : Bytes) (r : Option LoginStatus) (c : Client)
    → 0 < uid
    → uid < 1_000_000
    → verify_password pw ≡ true
    → IsSession c
    → IsSession (after_login uid pw r c)
unfolding IsSession after_login login
after_login-IsSession uid pw (some LoginStatus.ok) c p b v h = inr (p, b, v)
after_login-IsSession uid pw (some LoginStatus.reg) c p b v h = inr (p, b, v)
after_login-IsSession uid pw (some LoginStatus.nok) c p b v h = h
after_login-IsSession uid pw (some LoginStatus.err) c p b v h = h
after_login-IsSession uid pw none c p b v h = h

after_logout-IsSession :
    (r : Option LogoutStatus) (c : Client) → IsSession c → IsSession (left_after_logout r c)
unfolding IsSession left_after_logout forget
after_logout-IsSession (some LogoutStatus.ok) c h = inl refl
after_logout-IsSession (some LogoutStatus.nok) c h = h
after_logout-IsSession (some LogoutStatus.unr) c h = h
after_logout-IsSession (some LogoutStatus.err) c h = h
after_logout-IsSession none c h = h

after_unregister-IsSession :
    (r : Option UnregisterStatus) (c : Client) → IsSession c → IsSession (left_after_unregister r c)
unfolding IsSession left_after_unregister forget
after_unregister-IsSession (some UnregisterStatus.ok) c h = inl refl
after_unregister-IsSession (some UnregisterStatus.nok) c h = h
after_unregister-IsSession (some UnregisterStatus.unr) c h = h
after_unregister-IsSession (some UnregisterStatus.err) c h = h
after_unregister-IsSession none c h = h

convert_password_lem :
    (s : Bytes) (pw : Bytes) → convert_password s ≡ ok pw → verify_password pw ≡ true
unfolding convert_password
convert_password_lem s pw h = elim (Bool-cases (verify_password s)) [
  | inl v ↦ let same : ok s ≡ ok pw = rw v at h in cc
  | inr v ↦ let other : raised invalid_message ≡ ok pw = rw v at h in cc
]

if-IsSession :
    (b : Bool) (c : Client) (x y : Outcome Client)
    → IsSession (caught c x)
    → IsSession (caught c y)
    → IsSession (caught c (if b then x else y))
if-IsSession true c x y h k = h
if-IsSession false c x y h k = k

converted-IsSession :
    (net : Network) (c : Client) (r : Outcome ℕ) (q : Outcome Bytes)
    → IsSession c
    → ((uid : ℕ) → r ≡ ok uid → (0 < uid) × (uid < 1_000_000))
    → ((pw : Bytes) → q ≡ ok pw → verify_password pw ≡ true)
    → IsSession
        (caught c (r >>= λ uid. q >>= λ pw. ok (after_login uid pw (login_reply net uid pw) c)))
converted-IsSession net c (raised e) q h b v = h
converted-IsSession net c (ok uid) (raised e) h b v = h
converted-IsSession net c (ok uid) (ok pw) h b v =
    let (positive, bounded) = b uid refl in
    after_login-IsSession uid pw (login_reply net uid pw) c positive bounded (v pw refl) h

login_with-IsSession :
    (net : Network) (user_id password : Bytes) (c : Client)
    → IsSession c
    → IsSession (caught c (login_with net user_id password c))
unfolding login_with
login_with-IsSession net user_id password c h = if-IsSession (is_logged_in c) c _ _ h (
    if-IsSession (not (verify_user_id user_id)) c _ _ h (
      if-IsSession (not (verify_password password)) c _ _ h (
        converted-IsSession net c (convert_user_id user_id) (convert_password password) h
          (λ uid k.
            let (same, positive, bounded) = to_str-convert_user_id user_id uid k in
            (positive, bounded))
          (convert_password_lem password))))

login_words-IsSession :
    (net : Network) (ws : List Bytes) (c : Client)
    → IsSession c
    → IsSession (caught c (login_words net ws c))
unfolding login_words
login_words-IsSession net [] c h = h
login_words-IsSession net (v ∷ []) c h = h
login_words-IsSession net (v ∷ w ∷ []) c h = login_with-IsSession net v w c h
login_words-IsSession net (v ∷ w ∷ x ∷ ws) c h = h

handle-IsSession :
    (command : Command) (net : Network) (args : Bytes) (c : Client)
    → IsSession c
    → IsSession (caught c (handle command net args c))
unfolding handle login_command logout_command unregister_command
handle-IsSession Command.log_in net args c h = login_words-IsSession net (words args) c h
handle-IsSession Command.log_out net args c h =
    if-IsSession (not (no_args args)) c _ _ h (
      if-IsSession (not (is_logged_in c)) c _ _ h (after_logout-IsSession (logout_reply net c) c h))
handle-IsSession Command.unregister_user net args c h = if-IsSession (not (no_args args)) c _ _ h (
    if-IsSession (not (is_logged_in c)) c _ _ h
      (after_unregister-IsSession (unregister_reply net c) c h))

-- From a client without a user, or with a user whose id is from 1 to 999999 and whose password
-- `verify_password` accepts, any sequence of login, logout and unregister commands, with any
-- arguments and whatever the network does to each, leaves the client in such a state.
pub session-IsSession :
    (commands : List (Command × Network × Bytes)) (c : Client)
    → IsSession c
    → IsSession (session commands c)
unfolding session
session-IsSession [] c h = h
session-IsSession ((command, net, args) ∷ more) c h =
    session-IsSession more (caught c (handle command net args c))
      (handle-IsSession command net args c h)

short_answer :
    (status : LoginStatus)
    → take udp_socket_buffer_len (build_server_login_user status)
      ≡ build_server_login_user status ++ []
unfolding build_server_login_user
short_answer LoginStatus.ok = refl
short_answer LoginStatus.nok = refl
short_answer LoginStatus.reg = refl
short_answer LoginStatus.err = refl

exchanged_login :
    (status : LoginStatus)
    → exchanged
        (read_server_login_user StreamMessage)
        (Attempt.receives (build_server_login_user status))
      ≡ ok status
unfolding exchanged
exchanged_login status =
    let y =
      read-build_server_login_user StreamMessage StreamMessage-IsLawful status
        (of_bytes (take udp_socket_buffer_len (build_server_login_user status))) []
        (short_answer status) in
    ap (message_of (read_server_login_user StreamMessage)) y.result

login_reply-status :
    (net : Network) (uid : ℕ) (pw : Bytes) (status : LoginStatus)
    → net (build_client_login_user (record { user_id = uid; password = pw })) 4
      ≡ Attempt.receives (build_server_login_user status)
    → login_reply net uid pw ≡ some status
unfolding login_reply
login_reply-status net uid pw status h =
    let once =
      (send_udp-IsOnce
        (net (build_client_login_user (record { user_id = uid; password = pw })))).0 in
    ap (λ p. p.0) once
    ∙ ap answer_of
        (ap (exchanged (read_server_login_user StreamMessage)) h ∙ exchanged_login status)

abbrev pub lets_in : LoginStatus → Bool
lets_in LoginStatus.ok = true
lets_in LoginStatus.reg = true
lets_in LoginStatus.nok = false
lets_in LoginStatus.err = false

after_login-status :
    (uid : ℕ) (pw : Bytes) (status : LoginStatus) (c : Client)
    → after_login uid pw (some status) c
      ≡ (if lets_in status then record { user_id = uid; password = pw } else c)
unfolding after_login login
after_login-status uid pw LoginStatus.ok c = refl
after_login-status uid pw LoginStatus.reg c = refl
after_login-status uid pw LoginStatus.nok c = refl
after_login-status uid pw LoginStatus.err c = refl

-- For a login command of two words, a user id that converts and a password that
-- `verify_password` accepts, at a client without a user: when the network delivers, at the
-- first attempt at the request built of both, the answer that the server builds for a status,
-- the client keeps the user id and the password where the status is OK or REG, and stays as it
-- is where it is NOK or ERR, and the command does not throw.
pub login_command-Follows :
    (net : Network) (args user_id password : Bytes) (uid : ℕ) (status : LoginStatus) (c : Client)
    → words args ≡ user_id ∷ password ∷ []
    → is_logged_in c ≡ false
    → convert_user_id user_id ≡ ok uid
    → verify_password password ≡ true
    → net (build_client_login_user (record { user_id = uid; password = password })) 4
      ≡ Attempt.receives (build_server_login_user status)
    → login_command net args c
      ≡ ok (if lets_in status then record { user_id = uid; password = password } else c)
unfolding login_command login_words login_with
login_command-Follows net args user_id password uid status c split out converts valid answer =
    let reply = login_reply-status net uid password status answer in
    let known : verify_user_id user_id ≡ true = unfold convert_user_id in ground arith in
    let kept : convert_password password ≡ ok password = unfold convert_password in rw valid refl in
    rw (split, out, known, valid, converts, kept, reply)
      (ap ok (after_login-status uid password status c))
