-- ===== src/Tests/Wire.antt =====
-- Messages read from a datagram, and from a socket that delivers them in pieces.
use proj_rc.Base.{◌≡◌, refl, [], ◌∷◌, ◌++◌, codes, drop, Bytes}
use proj_rc.Protocol.Adapter.Stream.{Stream, of_bytes}
use proj_rc.Protocol.Adapter.Tcp.{Tcp, of_pieces, TcpMessage, TcpMessage-IsLawful, to_come}
use proj_rc.Protocol.Reader.{read_bytes}
use proj_rc.Protocol.Reader.Yields.{Yields, read_bytes-Yields}
use proj_rc.Protocol.Account.{
  ClientLoginUser, ClientLogout, ClientUnregister, UnregisterStatus, build_server_unregister,
}
use proj_rc.Tests.Data.{password}

abbrev pub login_message : ClientLoginUser
login_message = record { user_id = 123_456; password = password }

abbrev pub logout_message : ClientLogout
logout_message = record { user_id = 123_456; password = password }

abbrev pub unregister_message : ClientUnregister
unregister_message = record { user_id = 123_456; password = password }

-- A request as the handler gets it, behind its code.
abbrev pub request : Bytes → Stream
request message = of_bytes (drop 3 message ++ [])

abbrev answer_in_pieces : Tcp
answer_in_pieces = of_pieces (codes "RUR " ∷ codes "OK" ∷ (10 ∷ []) ∷ [])

answer_whole : to_come answer_in_pieces ≡ build_server_unregister UnregisterStatus.ok ++ []
unfolding build_server_unregister
answer_whole = refl

read_bytes-Yields_example :
    Yields TcpMessage TcpMessage-IsLawful
      (read_bytes TcpMessage 4)
      (of_pieces (codes "a b" ∷ (10 ∷ []) ∷ codes "c" ∷ []))
      (codes "a b" ++ (10 ∷ []))
      (codes "c")
read_bytes-Yields_example =
    read_bytes-Yields TcpMessage TcpMessage-IsLawful (codes "a b" ++ (10 ∷ []))
      (of_pieces (codes "a b" ∷ (10 ∷ []) ∷ codes "c" ∷ [])) (codes "c") refl
