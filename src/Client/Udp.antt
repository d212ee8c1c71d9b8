-- ===== src/Client/Udp.antt =====
-- `Client::sendUdpMessageAndAwaitReply` (client.cpp), with `send_udp_message` and
-- `await_udp_message` (protocol.cpp). What the sockets do is a parameter.
pub mod Once
use proj_rc.Base.{ℕ, zero, suc, Option, none, some, Bytes, take}
use proj_rc.Shared.Outcome.{Outcome, ok, raised, message_send, message_receive, connection_timeout}
use proj_rc.Protocol.Adapter.Stream.{Stream, of_bytes}
use proj_rc.Protocol.Reader.{Reader}

-- What the socket does at one attempt: `sendto`, `select` or `recvfrom` fails, the time is over, or
-- a datagram arrives.
pub data Attempt : Type 0 where
  send_fails select_fails times_out receive_fails : Attempt
  receives : Bytes → Attempt

-- What happens to a request at the attempt with so many tries left.
abbrev pub Network : Type 0
Network = Bytes → ℕ → Attempt

abbrev pub udp_socket_buffer_len : ℕ
udp_socket_buffer_len = 6002

abbrev pub udp_max_tries : ℕ
udp_max_tries = 5

module _ {A : Type 0} (read : Reader Stream A) where
  abbrev pub message_of : Outcome (A × Stream) → Outcome A
  message_of (ok (m, s)) = ok m
  message_of (raised e) = raised e

  -- Sending, and reading the message of one datagram.
  unfoldable pub exchanged : Attempt → Outcome A
  exchanged Attempt.send_fails = raised message_send
  exchanged Attempt.select_fails = raised message_receive
  exchanged Attempt.times_out = raised message_receive
  exchanged Attempt.receive_fails = raised message_receive
  exchanged (Attempt.receives datagram) =
      message_of (read (of_bytes (take udp_socket_buffer_len datagram)))

  -- The loop over the tries, from what the ones after this give: the answer, if any, and how many
  -- times the request has been sent. Only ConnectionTimeoutException leads to another try.
  unfoldable pub after_try : Outcome A → Option A × ℕ → Option A × ℕ
  after_try (ok m) rest = (some m, 1)
  after_try (raised connection_timeout) rest = (rest.0, suc rest.1)
  after_try (raised e) rest = (none, 1)

  unfoldable pub tries : (ℕ → Attempt) → ℕ → Option A × ℕ
  unfolding exchanged after_try
  tries net zero = (none, 0)
  tries net (suc left) = after_try (exchanged (net left)) (tries net left)

  unfoldable pub send_udp_message_and_await_reply : (ℕ → Attempt) → Option A × ℕ
  unfolding tries
  send_udp_message_and_await_reply net = tries net udp_max_tries
