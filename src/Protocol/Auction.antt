-- ===== src/Protocol/Auction.antt =====
-- The requests about auctions (protocol.cpp): what the client builds, and what the server reads.
pub mod RoundTrip
use proj_rc.Base.{ℕ, ◌++◌, if◌then◌else◌, Bytes, bytes_eq, codes}
use proj_rc.Shared.Outcome.{Outcome, raised, invalid_message, message_building}
use proj_rc.Shared.Decimal.{to_string, stol_u32, sprintf_d}
use proj_rc.Shared.Verifications.{max_filename_size}
use proj_rc.Protocol.Adapter.{Adapter}
use proj_rc.Protocol.Reader.{
  Reader, ◌>>=◌, ◌>>◌, pure, throw, lift, read_space, read_delimiter, read_user_id, read_auction_id,
  read_auction_value, read_password, read_string, read_message_id, read_file,
}
use proj_rc.Protocol.Codes.{
  code_list_auc_user, code_list_myb_user, code_list_allauc_user, code_showrec_user,
  code_open_auc_client, code_open_auc_server, code_close_auc_client, code_close_auc_server,
  code_show_asset_client, code_show_asset_server, code_bid_client, code_bid_server, space, endl,
}

abbrev pub max_auction_name_size : ℕ
max_auction_name_size = 10

abbrev pub max_length_timeactive : ℕ
max_length_timeactive = 5

abbrev pub max_file_size_length : ℕ
max_file_size_length = 8

pub record ClientListStartedAuctions : Type 0 where
  pub user_id : ℕ

pub record ClientListBiddedAuctions : Type 0 where
  pub user_id : ℕ

pub record ClientShowRecord : Type 0 where
  pub auction_id : ℕ

pub record ClientOpenAuction : Type 0 where
  pub user_id : ℕ
  pub password : Bytes
  pub name : Bytes
  pub start_value : ℕ
  pub timeactive : ℕ
  pub assetf_name : Bytes
  pub fsize : ℕ
  pub fdata : Bytes

pub record ClientCloseAuction : Type 0 where
  pub user_id : ℕ
  pub password : Bytes
  pub auction_id : ℕ

pub record ClientShowAsset : Type 0 where
  pub auction_id : ℕ

pub record ClientBid : Type 0 where
  pub user_id : ℕ
  pub password : Bytes
  pub auction_id : ℕ
  pub value : ℕ

unfoldable pub build_client_list_started : ClientListStartedAuctions → Bytes
build_client_list_started m = code_list_auc_user ++ (space ++ (to_string m.user_id ++ endl))

unfoldable pub build_client_list_bidded : ClientListBiddedAuctions → Bytes
build_client_list_bidded m = code_list_myb_user ++ (space ++ (to_string m.user_id ++ endl))

unfoldable pub build_client_list_all : Bytes
build_client_list_all = code_list_allauc_user ++ endl

unfoldable pub build_client_show_record : ClientShowRecord → Bytes
build_client_show_record m = code_showrec_user ++ (space ++ (sprintf_d 3 m.auction_id ++ endl))

unfoldable pub build_client_open_auction : ClientOpenAuction → Bytes
build_client_open_auction m =
    code_open_auc_client
    ++ space
    ++ to_string m.user_id
    ++ space
    ++ m.password
    ++ space
    ++ m.name
    ++ space
    ++ to_string m.start_value
    ++ space
    ++ to_string m.timeactive
    ++ space
    ++ m.assetf_name
    ++ space
    ++ to_string m.fsize
    ++ space
    ++ m.fdata
    ++ endl

unfoldable pub build_client_close_auction : ClientCloseAuction → Bytes
build_client_close_auction m =
    code_close_auc_client
    ++ space
    ++ to_string m.user_id
    ++ space
    ++ m.password
    ++ space
    ++ sprintf_d 3 m.auction_id
    ++ endl

unfoldable pub build_client_show_asset : ClientShowAsset → Bytes
build_client_show_asset m = code_show_asset_client ++ space ++ sprintf_d 3 m.auction_id ++ endl

unfoldable pub build_client_bid : ClientBid → Bytes
build_client_bid m =
    code_bid_client
    ++ space
    ++ to_string m.user_id
    ++ space
    ++ m.password
    ++ space
    ++ sprintf_d 3 m.auction_id
    ++ space
    ++ to_string m.value
    ++ endl

module _ (a : Adapter) where
  open a use {Source}

  unfoldable pub read_client_list_started : Reader Source ClientListStartedAuctions
  read_client_list_started = do
    read_space a
    user_id ← read_user_id a
    read_delimiter a
    pure (record { user_id = user_id })

  unfoldable pub read_client_list_bidded : Reader Source ClientListBiddedAuctions
  read_client_list_bidded = do
    read_space a
    user_id ← read_user_id a
    read_delimiter a
    pure (record { user_id = user_id })

  unfoldable pub read_client_list_all : Reader Source (Unit {0})
  read_client_list_all = read_delimiter a

  unfoldable pub read_client_show_record : Reader Source ClientShowRecord
  read_client_show_record = do
    read_space a
    auction_id ← read_auction_id a
    read_delimiter a
    pure (record { auction_id = auction_id })

  -- The cast of the size to `size_t` and then to 32 bits is one cast to 32 bits: a text of at most 8
  -- bytes whose number is negative gives a size that `readFile` refuses.
  unfoldable pub read_client_open_auction : Reader Source ClientOpenAuction
  read_client_open_auction = do
    read_space a
    user_id ← read_user_id a
    read_space a
    password ← read_password a
    read_space a
    name ← read_string a max_auction_name_size
    read_space a
    start_value ← read_auction_value a
    read_space a
    timeactive ← read_string a max_length_timeactive >>= λ str. lift (stol_u32 str)
    read_space a
    assetf_name ← read_string a max_filename_size
    read_space a
    fsize ← read_string a max_file_size_length >>= λ str. lift (stol_u32 str)
    read_space a
    fdata ← read_file a fsize
    read_delimiter a
    pure (record {
      user_id = user_id;
      password = password;
      name = name;
      start_value = start_value;
      timeactive = timeactive;
      assetf_name = assetf_name;
      fsize = fsize;
      fdata = fdata;
    })

  unfoldable pub read_client_close_auction : Reader Source ClientCloseAuction
  read_client_close_auction = do
    read_space a
    user_id ← read_user_id a
    read_space a
    password ← read_password a
    read_space a
    auction_id ← read_auction_id a
    read_delimiter a
    pure (record { user_id = user_id; password = password; auction_id = auction_id })

  unfoldable pub read_client_show_asset : Reader Source ClientShowAsset
  read_client_show_asset = do
    read_space a
    auction_id ← read_auction_id a
    read_delimiter a
    pure (record { auction_id = auction_id })

  unfoldable pub read_client_bid : Reader Source ClientBid
  read_client_bid = do
    read_space a
    user_id ← read_user_id a
    read_space a
    password ← read_password a
    read_space a
    auction_id ← read_auction_id a
    read_space a
    value ← read_auction_value a
    read_delimiter a
    pure (record { user_id = user_id; password = password; auction_id = auction_id; value = value })
