-- ===== src/Protocol/Answer.antt =====
-- The answers to `open`, `close`, `show_asset` and `bid` (protocol.cpp): what the server builds, and
-- what the client reads.
pub mod RoundTrip
use proj_rc.Base.{ℕ, ◌++◌, if◌then◌else◌, Bytes, bytes_eq, codes}
use proj_rc.Shared.Outcome.{Outcome, raised, invalid_message, message_building}
use proj_rc.Shared.Decimal.{to_string, stol_u32, sprintf_d}
use proj_rc.Shared.Verifications.{max_filename_size}
use proj_rc.Protocol.Adapter.{Adapter}
use proj_rc.Protocol.Reader.{
  Reader, ◌>>=◌, ◌>>◌, pure, throw, lift, read_space, read_delimiter, read_user_id, read_auction_id,
  read_auction_value, read_password, read_string, read_message_id, read_file,
}
use proj_rc.Protocol.Auction.{max_file_size_length}
use proj_rc.Protocol.Codes.{
  code_list_auc_user, code_list_myb_user, code_list_allauc_user, code_showrec_user,
  code_open_auc_client, code_open_auc_server, code_close_auc_client, code_close_auc_server,
  code_show_asset_client, code_show_asset_server, code_bid_client, code_bid_server, space, endl,
}

-- A status and the fields that are set with it. `nlg` is never read.
pub data ServerOpenAuction : Type 0 where
  ok : ℕ → ServerOpenAuction
  nok nlg err : ServerOpenAuction

pub data ServerShowAsset : Type 0 where
  ok : Bytes → ℕ → Bytes → ServerShowAsset
  nok err : ServerShowAsset

pub data CloseAuctionStatus : Type 0 where
  ok nlg eau eow end err nok : CloseAuctionStatus

pub data BidStatus : Type 0 where
  nok nlg acc ref ilg err : BidStatus

unfoldable pub build_server_open_auction : ServerOpenAuction → Outcome Bytes
build_server_open_auction (ServerOpenAuction.ok auction_id) =
    Outcome.ok
      (code_open_auc_server ++ (space ++ (codes "OK " ++ (sprintf_d 3 auction_id ++ endl))))
build_server_open_auction ServerOpenAuction.nok =
    Outcome.ok (code_open_auc_server ++ (space ++ (codes "NOK" ++ endl)))
build_server_open_auction ServerOpenAuction.nlg = raised message_building
build_server_open_auction ServerOpenAuction.err =
    Outcome.ok (code_open_auc_server ++ (space ++ (codes "ERR" ++ endl)))

unfoldable pub build_server_show_asset : ServerShowAsset → Bytes
build_server_show_asset (ServerShowAsset.ok fname fsize fdata) =
    code_show_asset_server
    ++ (space
        ++ (codes "OK " ++ (fname ++ (space ++ (to_string fsize ++ (space ++ (fdata ++ endl)))))))
build_server_show_asset ServerShowAsset.nok =
    code_show_asset_server ++ (space ++ (codes "NOK" ++ endl))
build_server_show_asset ServerShowAsset.err =
    code_show_asset_server ++ (space ++ (codes "ERR" ++ endl))

unfoldable pub close_status_text : CloseAuctionStatus → Bytes
close_status_text CloseAuctionStatus.ok = codes "OK"
close_status_text CloseAuctionStatus.nlg = codes "NLG"
close_status_text CloseAuctionStatus.eau = codes "EAU"
close_status_text CloseAuctionStatus.eow = codes "EOW"
close_status_text CloseAuctionStatus.end = codes "END"
close_status_text CloseAuctionStatus.nok = codes "NOK"
close_status_text CloseAuctionStatus.err = codes "ERR"

unfoldable pub bid_status_text : BidStatus → Bytes
bid_status_text BidStatus.nok = codes "NOK"
bid_status_text BidStatus.nlg = codes "NLG"
bid_status_text BidStatus.acc = codes "ACC"
bid_status_text BidStatus.ref = codes "REF"
bid_status_text BidStatus.ilg = codes "ILG"
bid_status_text BidStatus.err = codes "ERR"

unfoldable pub build_server_close_auction : CloseAuctionStatus → Bytes
unfolding close_status_text
build_server_close_auction status =
    code_close_auc_server ++ (space ++ (close_status_text status ++ endl))

unfoldable pub build_server_bid : BidStatus → Bytes
unfolding bid_status_text
build_server_bid status = code_bid_server ++ (space ++ (bid_status_text status ++ endl))

unfoldable pub parse_close_status : Bytes → Outcome CloseAuctionStatus
parse_close_status s =
    if bytes_eq s (codes "OK")
    then Outcome.ok CloseAuctionStatus.ok
    else if bytes_eq s (codes "NLG")
    then Outcome.ok CloseAuctionStatus.nlg
    else if bytes_eq s (codes "EAU")
    then Outcome.ok CloseAuctionStatus.eau
    else if bytes_eq s (codes "EOW")
    then Outcome.ok CloseAuctionStatus.eow
    else if bytes_eq s (codes "END")
    then Outcome.ok CloseAuctionStatus.end
    else if bytes_eq s (codes "NOK")
    then Outcome.ok CloseAuctionStatus.nok
    else if bytes_eq s (codes "ERR")
    then Outcome.ok CloseAuctionStatus.err
    else raised invalid_message

unfoldable pub parse_bid_status : Bytes → Outcome BidStatus
parse_bid_status s =
    if bytes_eq s (codes "NOK")
    then Outcome.ok BidStatus.nok
    else if bytes_eq s (codes "NLG")
    then Outcome.ok BidStatus.nlg
    else if bytes_eq s (codes "ACC")
    then Outcome.ok BidStatus.acc
    else if bytes_eq s (codes "REF")
    then Outcome.ok BidStatus.ref
    else if bytes_eq s (codes "ILG")
    then Outcome.ok BidStatus.ilg
    else if bytes_eq s (codes "ERR")
    then Outcome.ok BidStatus.err
    else raised invalid_message

module _ (a : Adapter) where
  open a use {Source}

  open_auction_by_status : Bytes → Reader Source ServerOpenAuction
  open_auction_by_status status_str =
      if bytes_eq status_str (codes "OK")
      then (read_space a
          >> (read_auction_id a >>= λ aid. read_delimiter a >> pure (ServerOpenAuction.ok aid)))
      else if bytes_eq status_str (codes "NOK")
      then (read_delimiter a >> pure ServerOpenAuction.nok)
      else if bytes_eq status_str (codes "ERR")
      then (read_delimiter a >> pure ServerOpenAuction.err)
      else throw invalid_message

  unfoldable pub read_server_open_auction : Reader Source ServerOpenAuction
  unfolding open_auction_by_status
  read_server_open_auction = do
    read_message_id a code_open_auc_server
    read_space a
    status_str ← read_string a 3
    open_auction_by_status status_str

  read_asset : Reader Source ServerShowAsset
  read_asset = do
    read_space a
    fname ← read_string a max_filename_size
    read_space a
    fsize ← read_string a max_file_size_length >>= λ str. lift (stol_u32 str)
    read_space a
    fdata ← read_file a fsize
    read_delimiter a
    pure (ServerShowAsset.ok fname fsize fdata)

  show_asset_by_status : Bytes → Reader Source ServerShowAsset
  unfolding read_asset
  show_asset_by_status status_str =
      if bytes_eq status_str (codes "OK")
      then read_asset
      else if bytes_eq status_str (codes "NOK")
      then (read_delimiter a >> pure ServerShowAsset.nok)
      else if bytes_eq status_str (codes "ERR")
      then (read_delimiter a >> pure ServerShowAsset.err)
      else throw invalid_message

  unfoldable pub read_server_show_asset : Reader Source ServerShowAsset
  unfolding show_asset_by_status
  read_server_show_asset = do
    read_message_id a code_show_asset_server
    read_space a
    status_str ← read_string a 3
    show_asset_by_status status_str

  -- The delimiter is read before the status is looked at.
  unfoldable pub read_server_close_auction : Reader Source CloseAuctionStatus
  unfolding parse_close_status
  read_server_close_auction = do
    read_message_id a code_close_auc_server
    read_space a
    status_str ← read_string a 3
    read_delimiter a
    lift (parse_close_status status_str)

  unfoldable pub read_server_bid : Reader Source BidStatus
  unfolding parse_bid_status
  read_server_bid = do
    read_message_id a code_bid_server
    read_space a
    status_str ← read_string a 3
    status ← lift (parse_bid_status status_str)
    read_delimiter a
    pure status
