-- ===== src/Database/Auctions/Record.antt =====
-- `ShowRecord`, `ShowAsset` and `CreateBaseDir` (database.cpp).
pub mod Laws
pub mod Base
use proj_rc.Base.{
  ℕ, ◌-◌, Bool, true, false, not, Option, none, some, List, [], ◌∷◌, if◌then◌else◌, ltb, Bytes,
  length, drop,
}
use proj_rc.Shared.Outcome.{Outcome, auction_not_found, asset_does_not_exist}
use proj_rc.Shared.Outcome
use proj_rc.Shared.Decimal.{stol_u32}
use proj_rc.Database.Clock.{Clock}
use proj_rc.Database.Files.{FileSystem, exists, mkdir}
use proj_rc.Database.Files.Paths.{
  FilePath, as_dir, users_dir, auctions_dir, end_file, bids_dir, path_text,
}
use proj_rc.Database.Files.Listing.{iterate}
use proj_rc.Database.Monad.{
  Action, Db, Reply, done, pure, lift, asks, asks_ok, ◌>>=◌, ◌>>◌, semaphore_wait, post_return,
  post_throw,
}
use proj_rc.Database.Auctions.Infos.{
  StartInfo, EndInfo, BidInfo, get_start, get_end, get_bid, get_asset_dir, get_asset_data,
}
use proj_rc.Database.Auctions.Close.{close, has_expired}
use proj_rc.Database.Auctions.Sort.{sort_by}

-- What the bytes of a variable are that nothing has been written to: a `uint32_t`.
pub record Stack : Type 0 where
  pub junk : ℕ

pub record AuctionRecord : Type 0 where
  pub host_id : Bytes
  pub auction_name : Bytes
  pub asset_fname : Bytes
  pub start_value : Bytes
  pub start_datetime : Bytes
  pub timeactive : Bytes
  pub list : List BidInfo
  pub active : Bool
  pub end_datetime : Bytes
  pub end_timeelapsed : ℕ

-- CompareByValue looks at this number of a bid.
unfoldable pub value_key : BidInfo → Outcome ℕ
value_key b = stol_u32 b.value

abbrev bid_after : BidInfo → Option BidInfo → BidInfo
bid_after old none = old
bid_after old (some b) = b

-- The loop over BIDS: a file that cannot be read repeats the bid before it.
unfoldable pub bids_from : BidInfo → List FilePath → FileSystem → Outcome (List BidInfo)
bids_from old [] fs = Outcome.ok []
bids_from old (p ∷ ps) fs = Outcome.◌>>=◌ (get_bid p fs) λ b.
    Outcome.◌>>=◌ (bids_from (bid_after old b) ps fs) λ more. Outcome.ok (bid_after old b ∷ more)

-- The last 50 bids.
unfoldable pub last_fifty : List BidInfo → List BidInfo
last_fifty bs = if ltb 50 (length bs) then drop (length bs - 50) bs else bs

unfoldable pub no_bid : Stack → BidInfo
no_bid stack = record { user_id = []; value = []; current_date = []; time_passed = stack.junk }

-- The bids of a record: the 50 of the highest value, in the order of their values.
unfoldable pub list_bids : Stack → Bytes → FileSystem → Outcome (List BidInfo)
unfolding last_fifty
list_bids stack a_id fs = Outcome.◌>>=◌ (iterate (bids_dir a_id) fs) λ ps.
    Outcome.◌>>=◌ (bids_from (no_bid stack) ps fs)
      λ bs. Outcome.◌>>=◌ (sort_by value_key bs) λ sorted. Outcome.ok (last_fifty sorted)

abbrev pub end_after : Stack → Option EndInfo → EndInfo
end_after stack none = record { end_date = []; end_time = stack.junk }
end_after stack (some e) = e

-- The end of an auction, `none` while it is active.
unfoldable pub read_end : Stack → Bytes → Action (Option EndInfo)
read_end stack a_id = do e ← asks_ok (get_end (end_file a_id)); pure (some (end_after stack e))

unfoldable pub end_if_expired : Clock → Stack → Bytes → Bool → Action (Option EndInfo)
unfolding close read_end
end_if_expired clock stack a_id true = close clock a_id >>= λ res. read_end stack a_id
end_if_expired clock stack a_id false = pure none

unfoldable pub end_of_auction : Clock → Stack → Bytes → StartInfo → Action (Option EndInfo)
unfolding read_end end_if_expired
end_of_auction clock stack a_id start = do
  expired ← lift (has_expired clock start)
  ended ← asks (exists (end_file a_id))
  if ended then read_end stack a_id else end_if_expired clock stack a_id expired

unfoldable pub record_of : Stack → StartInfo → Option EndInfo → List BidInfo → AuctionRecord
record_of stack start none bs = record {
  host_id = start.user_id;
  auction_name = start.name;
  asset_fname = start.asset_fname;
  start_value = start.start_value;
  start_datetime = start.current_date;
  timeactive = start.timeactive;
  list = bs;
  active = true;
  end_datetime = [];
  end_timeelapsed = stack.junk;
}
record_of stack start (some e) bs = record {
  host_id = start.user_id;
  auction_name = start.name;
  asset_fname = start.asset_fname;
  start_value = start.start_value;
  start_datetime = start.current_date;
  timeactive = start.timeactive;
  list = bs;
  active = false;
  end_datetime = e.end_date;
  end_timeelapsed = e.end_time;
}

unfoldable pub record_started : Clock → Stack → Bytes → Option StartInfo → Action AuctionRecord
unfolding end_of_auction post_return post_throw
record_started clock stack a_id none = post_throw auction_not_found
record_started clock stack a_id (some start) = do
  ended ← end_of_auction clock stack a_id start
  bs ← asks_ok (list_bids stack a_id)
  post_return (record_of stack start ended bs)

unfoldable pub show_record_locked : Clock → Stack → Bytes → Action AuctionRecord
unfolding record_started
show_record_locked clock stack a_id = do
  start ← asks_ok (get_start a_id)
  record_started clock stack a_id start

unfoldable pub show_record : Clock → Stack → Bytes → Action AuctionRecord
show_record clock stack a_id = semaphore_wait >> show_record_locked clock stack a_id

pub record AssetInfo : Type 0 where
  pub asset_fname : Bytes
  pub fsize : ℕ
  pub fdata : Bytes

-- `asset_dir.erase(asset_dir.begin(), asset_dir.begin() + 25)` leaves the name in ASSET.
unfoldable pub asset_of : FilePath → FileSystem → AssetInfo
unfolding path_text
asset_of p fs = record {
  asset_fname = drop 25 (path_text p);
  fsize = length (get_asset_data p fs);
  fdata = get_asset_data p fs;
}

asset_in : Option FilePath → Action AssetInfo
unfolding asset_of post_return post_throw
asset_in none = post_throw asset_does_not_exist
asset_in (some p) = do asset ← asks (asset_of p); post_return asset

-- The directory is searched before the wait.
unfoldable pub show_asset : Bytes → Action AssetInfo
unfolding asset_in
show_asset a_id = do found ← asks_ok (get_asset_dir a_id); semaphore_wait >> asset_in found

unfoldable pub base_made : List FilePath → FileSystem → Bool × FileSystem
base_made [] fs = (true, fs)
base_made (p ∷ ps) fs =
    let (made, fs') = mkdir p fs in
    let rest = base_made ps fs' in if not made then (false, fs') else rest

-- `semaphore_init`, which is taken to succeed, makes the semaphore anew; then come the directories.
unfoldable pub create_base_dir : Db → Bool × Db
unfolding base_made
create_base_dir db =
    let (made, fs') = base_made (as_dir ∷ users_dir ∷ auctions_dir ∷ []) db.fs in
    (made, record { fs = fs'; sem = 1 })
