-- ===== src/Server/Dispatch/Laws.antt =====
-- Which handler a message gets.
use proj_rc.Base.{false, ◌≡◌, ◌≢◌, refl, none, some, arith, Bytes, bytes_eq, bytes_eq→eq}
use proj_rc.Protocol.Codes.{
  code_login_user, code_logout_user, code_unregister_user, code_list_allauc_user,
  code_list_myb_user, code_list_auc_user, code_showrec_user,
}
use proj_rc.Server.Dispatch.{
  RequestHandler, MessageType, protocol_code, wrong_request_udp, wrong_request_tcp, udp_message,
  tcp_message, register_request_handlers, select_handler,
}

-- The connection that a handler's messages come over.
abbrev pub transport : RequestHandler → MessageType
transport RequestHandler.login_request = udp_message
transport RequestHandler.logout_request = udp_message
transport RequestHandler.unregister_request = udp_message
transport RequestHandler.list_all_auctions_request = udp_message
transport RequestHandler.list_bidded_auctions_request = udp_message
transport RequestHandler.list_started_auctions_request = udp_message
transport RequestHandler.show_record_request = udp_message
transport _ = tcp_message

-- With the handlers registered, each request but the two for wrong messages is selected by its
-- own code over its own transport.
pub select_handler-protocol_code :
    (h : RequestHandler)
    → h ≢ wrong_request_udp
    → h ≢ wrong_request_tcp
    → select_handler register_request_handlers (transport h) (protocol_code h) ≡ some h
unfolding select_handler register_request_handlers
select_handler-protocol_code RequestHandler.login_request n m = refl
select_handler-protocol_code RequestHandler.wrong_request_udp n m = absurd (n refl)
select_handler-protocol_code RequestHandler.wrong_request_tcp n m = absurd (m refl)
select_handler-protocol_code _ n m = refl

-- With the handlers registered, every code that comes over TCP, whatever its bytes are,
-- selects a handler.
pub select_handler-tcp :
    (code : Bytes) → select_handler register_request_handlers tcp_message code ≢ none
unfolding select_handler register_request_handlers
select_handler-tcp code h = ground arith

ne→bytes_eq : (s t : Bytes) → t ≢ s → bytes_eq s t ≡ false
ne→bytes_eq s t n = ground (arith, bytes_eq→eq s t)

-- With the handlers registered, a code that comes over UDP and is none of the seven registered
-- for UDP selects no handler, not even the one for wrong messages: the end of the table is
-- used as an entry.
pub select_handler-udp_unknown :
    (code : Bytes)
    → code ≢ code_login_user
    → code ≢ code_logout_user
    → code ≢ code_unregister_user
    → code ≢ code_list_allauc_user
    → code ≢ code_list_myb_user
    → code ≢ code_list_auc_user
    → code ≢ code_showrec_user
    → select_handler register_request_handlers udp_message code ≡ none
unfolding select_handler register_request_handlers
select_handler-udp_unknown code n₁ n₂ n₃ n₄ n₅ n₆ n₇ = rw (
  ne→bytes_eq _ code n₁,
  ne→bytes_eq _ code n₂,
  ne→bytes_eq _ code n₃,
  ne→bytes_eq _ code n₄,
  ne→bytes_eq _ code n₅,
  ne→bytes_eq _ code n₆,
  ne→bytes_eq _ code n₇,
)
