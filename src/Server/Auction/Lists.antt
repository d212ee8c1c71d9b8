-- ===== src/Server/Auction/Lists.antt =====
-- `ListAllAuctionsRequest::handle`, `ListBiddedAuctionsRequest::handle` and
-- `ListStartedAuctionsRequest::handle` (handlers.cpp).
use proj_rc.Base.{Bool, not, List, [], ◌∷◌, ◌++◌, if◌then◌else◌, Bytes, codes}
use proj_rc.Shared.Outcome.{Exception, Outcome, raised}
use proj_rc.Shared.Decimal.{to_string}
use proj_rc.Protocol.Adapter.{Adapter}
use proj_rc.Protocol.Auction.{
  ClientListStartedAuctions, ClientListBiddedAuctions, read_client_list_started,
  read_client_list_bidded, read_client_list_all,
}
use proj_rc.Protocol.Listing.{
  ServerListAuctions, build_server_list_started, build_server_list_bidded, build_server_list_all,
}
use proj_rc.Database.Clock.{Clock}
use proj_rc.Database.Monad.{Db, Reply, done, blocked}
use proj_rc.Database.Users.{check_user_logged_in}
use proj_rc.Database.Auctions.Listings.{
  AuctionListing, AuctionList, my_auctions, my_bids, list_auctions,
}
use proj_rc.Server.Handled.{Handled, answered, unanswered, waiting, escaped, on_exception}

-- `a.a_id + " " + std::to_string(state)`
unfoldable pub auction_str : AuctionListing → Bytes
auction_str a = a.a_id ++ (codes " " ++ (if a.active then codes "1" else codes "0"))

unfoldable pub auction_strs : AuctionList → List Bytes
unfolding auction_str
auction_strs [] = []
auction_strs (a ∷ more) = auction_str a ∷ auction_strs more

unfoldable pub list_status : AuctionList → ServerListAuctions
unfolding auction_strs
list_status [] = ServerListAuctions.nok
list_status (a ∷ more) = ServerListAuctions.ok (auction_strs (a ∷ more))

-- The status of a listing for a user: the login is looked at when the list has been made.
unfoldable pub user_list_status : Bool → AuctionList → ServerListAuctions
unfolding list_status
user_list_status logged_in auctions =
    if not logged_in then ServerListAuctions.nlg else list_status auctions

-- `send_udp_message` builds the message outside of the `try` block.
abbrev pub sent : Outcome Bytes → Handled
sent (Outcome.ok message) = answered message
sent (raised e) = escaped e

abbrev list_all_exception : Exception → Handled
list_all_exception Exception.invalid_message = sent (build_server_list_all ServerListAuctions.err)
list_all_exception e = unanswered

abbrev pub answer_all : Reply AuctionList → Handled
answer_all (done auctions) = sent (build_server_list_all (list_status auctions))
answer_all (Reply.raised e) = list_all_exception e
answer_all blocked = waiting

abbrev pub answer_user_list :
    (ServerListAuctions → Bytes) → Bytes → Reply AuctionList × Db → Handled
answer_user_list build user_id (done auctions, db) =
    answered (build (user_list_status (check_user_logged_in user_id db.fs) auctions))
answer_user_list build user_id (Reply.raised e, db) = on_exception (build ServerListAuctions.err) e
answer_user_list build user_id (blocked, db) = waiting

module _ (a : Adapter) (clock : Clock) where
  open a use {Source}

  handle_list_all_message : Db → Outcome (Unit {0} × Source) → Handled × Db
  unfolding build_server_list_all list_status
  handle_list_all_message db (Outcome.ok (m, s)) =
      let (r, db') = list_auctions clock db in (answer_all r, db')
  handle_list_all_message db (raised e) = (list_all_exception e, db)

  unfoldable pub handle_list_all : Source → Db → Handled × Db
  unfolding handle_list_all_message
  handle_list_all s db = handle_list_all_message db (read_client_list_all a s)

  handle_list_bidded_message : Db → Outcome (ClientListBiddedAuctions × Source) → Handled × Db
  unfolding user_list_status
  handle_list_bidded_message db (Outcome.ok (m, s)) =
      let (r, db') = my_bids clock (to_string m.user_id) db in
      (answer_user_list build_server_list_bidded (to_string m.user_id) (r, db'), db')
  handle_list_bidded_message db (raised e) =
      (on_exception (build_server_list_bidded ServerListAuctions.err) e, db)

  unfoldable pub handle_list_bidded : Source → Db → Handled × Db
  unfolding handle_list_bidded_message
  handle_list_bidded s db = handle_list_bidded_message db (read_client_list_bidded a s)

  handle_list_started_message : Db → Outcome (ClientListStartedAuctions × Source) → Handled × Db
  unfolding user_list_status
  handle_list_started_message db (Outcome.ok (m, s)) =
      let (r, db') = my_auctions clock (to_string m.user_id) db in
      (answer_user_list build_server_list_started (to_string m.user_id) (r, db'), db')
  handle_list_started_message db (raised e) =
      (on_exception (build_server_list_started ServerListAuctions.err) e, db)

  unfoldable pub handle_list_started : Source → Db → Handled × Db
  unfolding handle_list_started_message
  handle_list_started s db = handle_list_started_message db (read_client_list_started a s)
