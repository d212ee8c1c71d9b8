-- ===== src/Server/Auction/Shows.antt =====
-- `ShowRecordRequest::handle` and `ShowAssetRequest::handle` (handlers.cpp).
use proj_rc.Base.{ℕ, List, [], ◌∷◌, if◌then◌else◌, Bytes}
use proj_rc.Shared.Outcome.{Exception, Outcome, raised, auction_not_found, asset_does_not_exist}
use proj_rc.Shared.Outcome
use proj_rc.Shared.Decimal.{stoi, to_u32, map_ok}
use proj_rc.Shared.Convert.{convert_auction_id_to_str}
use proj_rc.Shared.Dates.{convert_str_to_date}
use proj_rc.Protocol.Adapter.{Adapter}
use proj_rc.Protocol.Auction.{
  ClientShowRecord, ClientShowAsset, read_client_show_record, read_client_show_asset,
}
use proj_rc.Protocol.Record.{
  Bid, ShownRecord, ServerShowRecord, RecordEnd, no_end, build_server_show_record,
  build_server_error,
}
use proj_rc.Protocol.Answer.{ServerShowAsset, build_server_show_asset}
use proj_rc.Database.Clock.{Clock}
use proj_rc.Database.Monad.{Db, Reply, done, blocked}
use proj_rc.Database.Auctions.Infos.{BidInfo}
use proj_rc.Database.Auctions.Record.{Stack, AuctionRecord, AssetInfo, show_record, show_asset}
use proj_rc.Server.Handled.{Handled, answered, waiting, on_exception}

-- `static_cast<uint32_t>(stoi(s))`
abbrev stoi_u32 : Bytes → Outcome ℕ
stoi_u32 s = map_ok to_u32 (stoi s)

unfoldable pub shown_bid : Stack → BidInfo → Outcome Bid
shown_bid stack b = Outcome.◌>>=◌ (stoi_u32 b.user_id) λ bidder_uid.
    Outcome.◌>>=◌ (stoi_u32 b.value) λ bid_value. Outcome.ok (record {
      bidder_uid = bidder_uid;
      bid_value = bid_value;
      bid_date_time = convert_str_to_date stack.junk b.current_date;
      bid_sec_time = b.time_passed;
    })

unfoldable pub shown_bids : Stack → List BidInfo → Outcome (List Bid)
unfolding shown_bid
shown_bids stack [] = Outcome.ok []
shown_bids stack (b ∷ bs) =
    Outcome.◌>>=◌ (shown_bid stack b)
      λ shown. Outcome.◌>>=◌ (shown_bids stack bs) λ more. Outcome.ok (shown ∷ more)

unfoldable pub shown_end : Stack → AuctionRecord → RecordEnd
shown_end stack r =
    if r.active then no_end else (convert_str_to_date stack.junk r.end_datetime, r.end_timeelapsed)

unfoldable pub shown_record : Stack → AuctionRecord → Outcome ShownRecord
unfolding shown_bids shown_end
shown_record stack r = Outcome.◌>>=◌ (stoi_u32 r.host_id) λ host_uid.
    Outcome.◌>>=◌ (stoi_u32 r.start_value) λ start_value.
      Outcome.◌>>=◌ (stoi_u32 r.timeactive) λ timeactive.
        Outcome.◌>>=◌ (shown_bids stack r.list) λ bids.
          let (end_date_time, end_sec_time) = shown_end stack r in
          Outcome.ok (record {
            host_uid = host_uid;
            auction_name = r.auction_name;
            asset_fname = r.asset_fname;
            start_value = start_value;
            start_date_time = convert_str_to_date stack.junk r.start_datetime;
            timeactive = timeactive;
            bids = bids;
            end_date_time = end_date_time;
            end_sec_time = end_sec_time;
          })

abbrev pub record_exception : Exception → Handled
record_exception auction_not_found = answered (build_server_show_record ServerShowRecord.nok)
record_exception e = on_exception (build_server_show_record ServerShowRecord.err) e

abbrev answer_shown : Outcome ShownRecord → Handled
answer_shown (Outcome.ok m) = answered (build_server_show_record (ServerShowRecord.ok m))
answer_shown (raised e) = record_exception e

unfoldable pub answer_record : Stack → Reply AuctionRecord → Handled
unfolding shown_record
answer_record stack (done r) = answer_shown (shown_record stack r)
answer_record stack (Reply.raised e) = record_exception e
answer_record stack blocked = waiting

abbrev asset_exception : Exception → Handled
asset_exception asset_does_not_exist = answered (build_server_show_asset ServerShowAsset.nok)
asset_exception e = on_exception (build_server_show_asset ServerShowAsset.err) e

unfoldable pub answer_asset : Reply AssetInfo → Handled
answer_asset (done m) =
    answered (build_server_show_asset (ServerShowAsset.ok m.asset_fname m.fsize m.fdata))
answer_asset (Reply.raised e) = asset_exception e
answer_asset blocked = waiting

module _ (a : Adapter) (clock : Clock) (stack : Stack) where
  open a use {Source}

  handle_show_record_message : Db → Outcome (ClientShowRecord × Source) → Handled × Db
  unfolding answer_record
  handle_show_record_message db (Outcome.ok (m, s)) =
      let (r, db') = show_record clock stack (convert_auction_id_to_str m.auction_id) db in
      (answer_record stack r, db')
  handle_show_record_message db (raised e) = (record_exception e, db)

  unfoldable pub handle_show_record : Source → Db → Handled × Db
  unfolding handle_show_record_message
  handle_show_record s db = handle_show_record_message db (read_client_show_record a s)

module _ (a : Adapter) where
  open a use {Source}

  handle_show_asset_message : Db → Outcome (ClientShowAsset × Source) → Handled × Db
  unfolding answer_asset
  handle_show_asset_message db (Outcome.ok (m, s)) =
      let (r, db') = show_asset (convert_auction_id_to_str m.auction_id) db in (answer_asset r, db')
  handle_show_asset_message db (raised e) = (asset_exception e, db)

  unfoldable pub handle_show_asset : Source → Db → Handled × Db
  unfolding handle_show_asset_message
  handle_show_asset s db = handle_show_asset_message db (read_client_show_asset a s)

-- `WrongRequestUDP::handle` and `WrongRequestTCP::handle`: the message is not looked at.
unfoldable pub handle_wrong : Db → Handled × Db
handle_wrong db = (answered build_server_error, db)
