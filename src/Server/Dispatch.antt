-- ===== src/Server/Dispatch.antt =====
-- `RequestManager` (server.cpp): the tables of handlers, and the choice of one for a message.
pub mod Laws
use proj_rc.Base.{Option, none, some, List, [], ◌∷◌, ◌++◌, if◌then◌else◌, Bytes, bytes_eq}
use proj_rc.Protocol.Codes.{
  code_login_user, code_logout_user, code_unregister_user, code_list_allauc_user,
  code_list_myb_user, code_list_auc_user, code_showrec_user, code_open_auc_client,
  code_close_auc_client, code_show_asset_client, code_bid_client, code_error,
}

-- The classes derived from `RequestHandler`.
pub data RequestHandler : Type 0 where
  login_request logout_request unregister_request : RequestHandler
  list_all_auctions_request list_bidded_auctions_request list_started_auctions_request :
      RequestHandler
  show_record_request open_auction_request close_auction_request : RequestHandler
  show_asset_request bid_request wrong_request_udp wrong_request_tcp : RequestHandler

-- The code that each constructor passes to `RequestHandler`.
unfoldable pub protocol_code : RequestHandler → Bytes
protocol_code login_request = code_login_user
protocol_code logout_request = code_logout_user
protocol_code unregister_request = code_unregister_user
protocol_code list_all_auctions_request = code_list_allauc_user
protocol_code list_bidded_auctions_request = code_list_myb_user
protocol_code list_started_auctions_request = code_list_auc_user
protocol_code show_record_request = code_showrec_user
protocol_code open_auction_request = code_open_auc_client
protocol_code close_auction_request = code_close_auc_client
protocol_code show_asset_request = code_show_asset_client
protocol_code bid_request = code_bid_client
protocol_code wrong_request_udp = code_error
protocol_code wrong_request_tcp = code_error

-- UDP_MESSAGE and TCP_MESSAGE.
pub data MessageType : Type 0 where
  udp_message tcp_message : MessageType

abbrev pub Table : Type 0
Table = List (Bytes × RequestHandler)

pub record RequestManager : Type 0 where
  pub udp_handlers : Table
  pub tcp_handlers : Table

unfoldable pub find_handler : Bytes → Table → Option RequestHandler
find_handler code [] = none
find_handler code ((c, h) ∷ table) = if bytes_eq c code then some h else find_handler code table

-- `unordered_map::insert`, which keeps the entry that is there.
unfoldable pub insert_handler : Bytes → RequestHandler → Table → Table
insert_handler code h [] = (code, h) ∷ []
insert_handler code h ((c, k) ∷ table) =
    if bytes_eq c code then (c, k) ∷ table else (c, k) ∷ insert_handler code h table

unfoldable pub register_request : RequestHandler → MessageType → RequestManager → RequestManager
unfolding insert_handler protocol_code
register_request h udp_message m = record m {
  udp_handlers = insert_handler (protocol_code h) h m.udp_handlers;
}
register_request h tcp_message m = record m {
  tcp_handlers = insert_handler (protocol_code h) h m.tcp_handlers;
}

unfoldable pub register_all : List (RequestHandler × MessageType) → RequestManager → RequestManager
unfolding register_request
register_all [] m = m
register_all ((h, t) ∷ more) m = register_all more (register_request h t m)

-- The calls of `registerRequestHandlers`, in their order.
abbrev pub registrations : List (RequestHandler × MessageType)
registrations =
    (login_request, udp_message)
    ∷ (logout_request, udp_message)
    ∷ (unregister_request, udp_message)
    ∷ (list_all_auctions_request, udp_message)
    ∷ (list_bidded_auctions_request, udp_message)
    ∷ (list_started_auctions_request, udp_message)
    ∷ (show_record_request, udp_message)
    ∷ (open_auction_request, tcp_message)
    ∷ (close_auction_request, tcp_message)
    ∷ (show_asset_request, tcp_message)
    ∷ (bid_request, tcp_message)
    ∷ (wrong_request_udp, tcp_message)
    ∷ (wrong_request_tcp, tcp_message)
    ∷ []

unfoldable pub register_request_handlers : RequestManager
unfolding register_all
register_request_handlers =
    register_all registrations (record { udp_handlers = []; tcp_handlers = [] })

-- The handler that is called for a code: `find`, and for a code that is not there the handler of
-- CODE_ERROR. `none`: `end()` is dereferenced, which is undefined behaviour.
abbrev pub or_error : Table → Option RequestHandler → Option RequestHandler
or_error table none = find_handler code_error table
or_error table (some h) = some h

unfoldable pub select_handler : RequestManager → MessageType → Bytes → Option RequestHandler
unfolding find_handler
select_handler m udp_message code = or_error m.udp_handlers (find_handler code m.udp_handlers)
select_handler m tcp_message code = or_error m.tcp_handlers (find_handler code m.tcp_handlers)
