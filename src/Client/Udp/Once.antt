-- ===== src/Client/Udp/Once.antt =====
-- A request over UDP is sent once.
use proj_rc.Base.{
  ℕ, zero, suc, ◌≡◌, refl, Bool, true, false, Bool-cases, inl, inr, not, Bytes, ◌==◌, [], ◌∷◌,
  if◌then◌else◌, arith, Option, some, none, take, ◌||◌,
}
use proj_rc.Shared.Outcome.{
  Outcome, ok, raised, connection_timeout, Exception, invalid_message, unexpected_message,
}
use proj_rc.Protocol.Adapter.Stream.{Stream, StreamMessage, get, unget, of_bytes}
use proj_rc.Protocol.Reader.{
  Reader, ◌>>=◌, ◌>>◌, pure, lift, throw, read_char, expect_char, read_message_id, read_space,
  read_delimiter, read_string, is_stop,
}
use proj_rc.Protocol.Codes.{code_login_server, code_logout_server, code_unregister_server}
use proj_rc.Protocol.Account.{
  max_status_size, parse_login_status, parse_logout_status, parse_unregister_status,
  read_server_login_user, read_server_logout, read_server_unregister,
}
use proj_rc.Client.Udp.{
  udp_socket_buffer_len, Attempt, tries, exchanged, after_try, message_of,
  send_udp_message_and_await_reply,
}

abbrev pub is_connection_timeout : Exception → Bool
is_connection_timeout connection_timeout = true
is_connection_timeout e = false

abbrev pub times_out : {A : Type 0} → Outcome A → Bool
times_out (ok x) = false
times_out (raised e) = is_connection_timeout e

-- The reader never throws ConnectionTimeoutException.
unfoldable IsQuiet : {A : Type 0} → Reader Stream A → Type 0
IsQuiet p = (s : Stream) → times_out (p s) ≡ false

if-IsQuiet :
    {A : Type 0} (b : Bool) (x y : Outcome A)
    → times_out x ≡ false
    → times_out y ≡ false
    → times_out (if b then x else y) ≡ false
if-IsQuiet true x y h k = h
if-IsQuiet false x y h k = k

quiet_after :
    {A B : Type 0} (r : Outcome (A × Stream)) (f : A → Reader Stream B)
    → times_out r ≡ false
    → ((x : A) → IsQuiet (f x))
    → times_out (elim r [ ok (x, s) ↦ f x s | raised e ↦ raised e ]) ≡ false
unfolding IsQuiet
quiet_after (ok (x, s)) f q k = k x s
quiet_after (raised e) f q k = q

bind-IsQuiet :
    {A B : Type 0} (p : Reader Stream A) (f : A → Reader Stream B)
    → IsQuiet p
    → ((x : A) → IsQuiet (f x))
    → IsQuiet (p >>= f)
unfolding IsQuiet
bind-IsQuiet p f q k s = quiet_after (p s) f (q s) k

pure-IsQuiet : {A : Type 0} (x : A) → IsQuiet (pure x)
unfolding IsQuiet
pure-IsQuiet x s = refl

get-IsQuiet : IsQuiet get
unfolding IsQuiet get
get-IsQuiet s = ground arith

read_char-IsQuiet : IsQuiet (read_char StreamMessage)
unfolding IsQuiet read_char
read_char-IsQuiet =
    bind-IsQuiet get (λ c s. if s.is_good then ok (c, s) else raised invalid_message) get-IsQuiet
      λ c s. ground arith

expect_char-IsQuiet : (c : ℕ) → IsQuiet (expect_char StreamMessage c)
unfolding IsQuiet expect_char
expect_char-IsQuiet c =
    bind-IsQuiet (read_char StreamMessage)
      (λ read. if not (read == c) then throw invalid_message else pure tt) read_char-IsQuiet
      λ d s. ground arith

read_message_id-IsQuiet : (code : Bytes) → IsQuiet (read_message_id StreamMessage code)
unfolding IsQuiet read_message_id
read_message_id-IsQuiet [] = λ s. refl
read_message_id-IsQuiet (k ∷ code) =
    bind-IsQuiet (read_char StreamMessage)
      (λ c s.
        if not s.is_good || not (c == k)
        then raised unexpected_message
        else read_message_id StreamMessage code s)
      read_char-IsQuiet
      λ c s.
        let rest = read_message_id-IsQuiet code s in
        elim (Bool-cases (not s.is_good || not (c == k))) [ inl h ↦ rw h refl | inr h ↦ rw h rest ]

read_string-IsQuiet : (n : ℕ) → IsQuiet (read_string StreamMessage n)
unfolding IsQuiet read_string
read_string-IsQuiet zero = λ s. refl
read_string-IsQuiet (suc n) =
    bind-IsQuiet get
      (λ c s.
        if not s.is_good
        then raised invalid_message
        else if is_stop c
        then ok ([], unget s)
        else (read_string StreamMessage n >>= λ str. pure (c ∷ str)) s)
      get-IsQuiet
      λ c s.
        let rest =
          bind-IsQuiet (read_string StreamMessage n) (λ str. pure (c ∷ str)) (read_string-IsQuiet n)
            λ str t. refl in
        if-IsQuiet (not s.is_good) (raised invalid_message)
          (if is_stop c
            then ok ([], unget s)
            else (read_string StreamMessage n >>= λ str. pure (c ∷ str)) s)
          refl
          (if-IsQuiet (is_stop c) (ok ([], unget s))
            ((read_string StreamMessage n >>= λ str. pure (c ∷ str)) s) refl (rest s))

lift-IsQuiet : {A : Type 0} (r : Outcome A) → times_out r ≡ false → IsQuiet (lift r)
unfolding IsQuiet
lift-IsQuiet (ok x) h s = refl
lift-IsQuiet (raised e) h s = h

-- The readers of the answers to login, logout and unregister differ in the code and the statuses.
status-IsQuiet :
    {A : Type 0} (code : Bytes) (parse : Bytes → Outcome A)
    → ((text : Bytes) → times_out (parse text) ≡ false)
    → IsQuiet (do
      read_message_id StreamMessage code
      read_space StreamMessage
      text ← read_string StreamMessage max_status_size
      status ← lift (parse text)
      read_delimiter StreamMessage
      pure status)
unfolding read_space read_delimiter
status-IsQuiet code parse h =
    bind-IsQuiet (read_message_id StreamMessage code) _ (read_message_id-IsQuiet code) λ u.
      bind-IsQuiet (expect_char StreamMessage b' ') _ (expect_char-IsQuiet b' ') λ u.
        bind-IsQuiet (read_string StreamMessage max_status_size) _
          (read_string-IsQuiet max_status_size)
          λ text. bind-IsQuiet (lift (parse text)) _ (lift-IsQuiet (parse text) (h text)) λ status.
            bind-IsQuiet (expect_char StreamMessage 10) _ (expect_char-IsQuiet 10)
              λ u. pure-IsQuiet status

read_server_login_user-IsQuiet : IsQuiet (read_server_login_user StreamMessage)
unfolding read_server_login_user parse_login_status
read_server_login_user-IsQuiet = status-IsQuiet code_login_server parse_login_status quiet
  where
    quiet : (text : Bytes) → times_out (parse_login_status text) ≡ false
    quiet text = ground arith

read_server_logout-IsQuiet : IsQuiet (read_server_logout StreamMessage)
unfolding read_server_logout parse_logout_status
read_server_logout-IsQuiet = status-IsQuiet code_logout_server parse_logout_status quiet
  where
    quiet : (text : Bytes) → times_out (parse_logout_status text) ≡ false
    quiet text = ground arith

read_server_unregister-IsQuiet : IsQuiet (read_server_unregister StreamMessage)
unfolding read_server_unregister parse_unregister_status
read_server_unregister-IsQuiet = status-IsQuiet code_unregister_server parse_unregister_status quiet
  where
    quiet : (text : Bytes) → times_out (parse_unregister_status text) ≡ false
    quiet text = ground arith

abbrev pub answer_of : {A : Type 0} → Outcome A → Option A
answer_of (ok m) = some m
answer_of (raised e) = none

quiet_try :
    {A : Type 0} (read : Reader Stream A) (r : Outcome A) (rest : Option A × ℕ)
    → times_out r ≡ false
    → after_try read r rest ≡ (answer_of r, 1)
unfolding after_try
quiet_try read (ok m) rest h = refl
quiet_try read (raised connection_timeout) rest h = cc
quiet_try read (raised e) rest h = refl

message_quiet :
    {A : Type 0} (read : Reader Stream A) (r : Outcome (A × Stream))
    → times_out r ≡ false
    → times_out (message_of read r) ≡ false
message_quiet read (ok (m, s)) h = refl
message_quiet read (raised e) h = h

quiet_exchange :
    {A : Type 0} (read : Reader Stream A)
    → IsQuiet read
    → (attempt : Attempt) → times_out (exchanged read attempt) ≡ false
unfolding exchanged IsQuiet
quiet_exchange read q Attempt.send_fails = refl
quiet_exchange read q Attempt.select_fails = refl
quiet_exchange read q Attempt.times_out = refl
quiet_exchange read q Attempt.receive_fails = refl
quiet_exchange read q (Attempt.receives datagram) =
    message_quiet read (read (of_bytes (take udp_socket_buffer_len datagram)))
      (q (of_bytes (take udp_socket_buffer_len datagram)))

quiet-once :
    {A : Type 0} (read : Reader Stream A)
    → IsQuiet read
    → (net : ℕ → Attempt)
    → send_udp_message_and_await_reply read net ≡ (answer_of (exchanged read (net 4)), 1)
unfolding send_udp_message_and_await_reply tries
quiet-once read q net =
    quiet_try read (exchanged read (net 4)) (tries read net 4) (quiet_exchange read q (net 4))

-- Whatever the network does: a request to log in, to log out or to unregister is sent once,
-- and the outcome is what comes of this one attempt, a timeout included.
pub send_udp-IsOnce :
    (net : ℕ → Attempt)
    → (send_udp_message_and_await_reply (read_server_login_user StreamMessage) net
        ≡ (answer_of (exchanged (read_server_login_user StreamMessage) (net 4)), 1))
      × ((send_udp_message_and_await_reply (read_server_logout StreamMessage) net
            ≡ (answer_of (exchanged (read_server_logout StreamMessage) (net 4)), 1))
          × (send_udp_message_and_await_reply (read_server_unregister StreamMessage) net
              ≡ (answer_of (exchanged (read_server_unregister StreamMessage) (net 4)), 1)))
send_udp-IsOnce net = (
  quiet-once (read_server_login_user StreamMessage) read_server_login_user-IsQuiet net,
  (
    quiet-once (read_server_logout StreamMessage) read_server_logout-IsQuiet net,
    quiet-once (read_server_unregister StreamMessage) read_server_unregister-IsQuiet net,
  ),
)
