-- ===== src/Server/Auction/Changes.antt =====
-- `OpenAuctionRequest::handle`, `CloseAuctionRequest::handle` and `BidRequest::handle`
-- (handlers.cpp).
use proj_rc.Base.{if◌then◌else◌, ltb}
use proj_rc.Shared.Outcome.{
  Exception, Outcome, raised, auction_not_found, auction_already_closed, auction_not_owned_by_user,
  user_does_not_exist, user_not_logged_in, incorrect_password, larger_bid_already_exists,
  bid_on_self,
}
use proj_rc.Shared.Decimal.{to_string}
use proj_rc.Shared.Convert.{convert_auction_id_to_str, convert_user_id_to_str}
use proj_rc.Protocol.Adapter.{Adapter}
use proj_rc.Protocol.Auction.{
  ClientOpenAuction, ClientCloseAuction, ClientBid, read_client_open_auction,
  read_client_close_auction, read_client_bid,
}
use proj_rc.Protocol.Answer.{
  ServerOpenAuction, CloseAuctionStatus, BidStatus, build_server_open_auction,
  build_server_close_auction, build_server_bid,
}
use proj_rc.Database.Clock.{Clock}
use proj_rc.Database.Monad.{Db, Reply, done, blocked}
use proj_rc.Database.Auctions.Open.{Opening, OpenResult, create_fail, opened, open_auction}
use proj_rc.Database.Auctions.Close.{CloseResult, close_auction}
use proj_rc.Database.Auctions.Bid.{Bidding, BidResult, bid}
use proj_rc.Server.Handled.{Handled, answered, unanswered, waiting, on_exception}
use proj_rc.Server.Auction.Lists.{sent}

-- `int aid`: DB_OPEN_CREATE_FAIL is not positive, and neither is 0.
unfoldable pub open_status : OpenResult → ServerOpenAuction
open_status create_fail = ServerOpenAuction.nok
open_status (opened aid) = if ltb 0 aid then ServerOpenAuction.ok aid else ServerOpenAuction.nok

abbrev open_exception : Exception → Handled
open_exception Exception.invalid_message = sent (build_server_open_auction ServerOpenAuction.err)
open_exception e = unanswered

unfoldable pub answer_open : Reply OpenResult → Handled
unfolding open_status
answer_open (done r) = sent (build_server_open_auction (open_status r))
answer_open (Reply.raised e) = open_exception e
answer_open blocked = waiting

abbrev pub close_exception : Exception → Handled
close_exception user_does_not_exist = answered (build_server_close_auction CloseAuctionStatus.nok)
close_exception incorrect_password = answered (build_server_close_auction CloseAuctionStatus.nok)
close_exception user_not_logged_in = answered (build_server_close_auction CloseAuctionStatus.nlg)
close_exception auction_not_found = answered (build_server_close_auction CloseAuctionStatus.eau)
close_exception auction_not_owned_by_user =
    answered (build_server_close_auction CloseAuctionStatus.eow)
close_exception auction_already_closed =
    answered (build_server_close_auction CloseAuctionStatus.end)
close_exception e = on_exception (build_server_close_auction CloseAuctionStatus.err) e

-- DB_CLOSE_NOK leaves the status as it was constructed, which is `unset`.
unfoldable pub answer_close : CloseAuctionStatus → Reply CloseResult → Handled
answer_close unset (done CloseResult.nok) = answered (build_server_close_auction unset)
answer_close unset (done CloseResult.ok) =
    answered (build_server_close_auction CloseAuctionStatus.ok)
answer_close unset (Reply.raised e) = close_exception e
answer_close unset blocked = waiting

-- DB_BID_REFUSE is answered as a bid that is accepted.
unfoldable pub bid_status : BidResult → BidStatus
bid_status BidResult.nok = BidStatus.nok
bid_status BidResult.refuse = BidStatus.acc
bid_status BidResult.accept = BidStatus.acc

abbrev pub bid_exception : Exception → Handled
bid_exception auction_already_closed = answered (build_server_bid BidStatus.nok)
bid_exception user_not_logged_in = answered (build_server_bid BidStatus.nlg)
bid_exception auction_not_found = answered (build_server_bid BidStatus.nok)
bid_exception larger_bid_already_exists = answered (build_server_bid BidStatus.ref)
bid_exception bid_on_self = answered (build_server_bid BidStatus.ilg)
bid_exception e = on_exception (build_server_bid BidStatus.err) e

unfoldable pub answer_bid : Reply BidResult → Handled
unfolding bid_status
answer_bid (done r) = answered (build_server_bid (bid_status r))
answer_bid (Reply.raised e) = bid_exception e
answer_bid blocked = waiting

-- What the handler passes to `Open`, and to `Bid`.
unfoldable pub opening_of : ClientOpenAuction → Opening
opening_of m = record {
  user_id = convert_user_id_to_str m.user_id;
  name = m.name;
  password = m.password;
  asset_fname = m.assetf_name;
  start_value = to_string m.start_value;
  timeactive = to_string m.timeactive;
  content = m.fdata;
}

unfoldable pub bidding_of : ClientBid → Bidding
bidding_of m = record {
  user_id = convert_user_id_to_str m.user_id;
  password = m.password;
  a_id = convert_auction_id_to_str m.auction_id;
  bid_value = to_string m.value;
}

module _ (a : Adapter) (clock : Clock) where
  open a use {Source}

  handle_open_message : Db → Outcome (ClientOpenAuction × Source) → Handled × Db
  unfolding opening_of
  handle_open_message db (Outcome.ok (m, s)) =
      let (r, db') = open_auction clock (opening_of m) db in (answer_open r, db')
  handle_open_message db (raised e) = (open_exception e, db)

  unfoldable pub handle_open : Source → Db → Handled × Db
  unfolding handle_open_message
  handle_open s db = handle_open_message db (read_client_open_auction a s)

  handle_close_message :
      CloseAuctionStatus → Db → Outcome (ClientCloseAuction × Source) → Handled × Db
  handle_close_message unset db (Outcome.ok (m, s)) =
      let (r, db') =
        close_auction clock (convert_auction_id_to_str m.auction_id)
          (convert_user_id_to_str m.user_id) m.password db in
      (answer_close unset r, db')
  handle_close_message unset db (raised e) = (close_exception e, db)

  unfoldable pub handle_close : CloseAuctionStatus → Source → Db → Handled × Db
  unfolding handle_close_message
  handle_close unset s db = handle_close_message unset db (read_client_close_auction a s)

  handle_bid_message : Db → Outcome (ClientBid × Source) → Handled × Db
  unfolding bidding_of
  handle_bid_message db (Outcome.ok (m, s)) =
      let (r, db') = bid clock (bidding_of m) db in (answer_bid r, db')
  handle_bid_message db (raised e) = (bid_exception e, db)

  unfoldable pub handle_bid : Source → Db → Handled × Db
  unfolding handle_bid_message
  handle_bid s db = handle_bid_message db (read_client_bid a s)
