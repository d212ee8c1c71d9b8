-- ===== src/Database/Auctions/Bid.antt =====
-- `Bid` (database.cpp).
pub mod Accept
use proj_rc.Base.{
  ℕ, Bool, true, false, not, Option, none, some, List, [], ◌∷◌, if◌then◌else◌, leb, Bytes,
}
use proj_rc.Shared.Outcome.{
  Outcome, user_not_logged_in, auction_not_found, bid_on_self, auction_already_closed,
  larger_bid_already_exists,
}
use proj_rc.Shared.Outcome
use proj_rc.Shared.Decimal.{ℤ, pos, negsuc, stol}
use proj_rc.Database.Clock.{Clock}
use proj_rc.Database.Files.{FileSystem, exists}
use proj_rc.Database.Files.Paths.{FilePath, end_file, bids_dir}
use proj_rc.Database.Files.Listing.{iterate}
use proj_rc.Database.Monad.{
  Action, Db, Reply, done, throw, lift, asks, asks_ok, changes, changes_ok, ◌>>=◌, ◌>>◌,
  semaphore_wait, post_return, post_throw,
}
use proj_rc.Database.Users.{check_user_logged_in, correct_password, is_correct, register_bid}
use proj_rc.Database.Auctions.Infos.{
  StartInfo, BidInfo, get_start, get_bid, check_auction_belongs, check_auction_exists,
}
use proj_rc.Database.Auctions.Files.{create_bid_file}
use proj_rc.Database.Auctions.Close.{close, has_expired}

-- DB_BID_NOK, DB_BID_REFUSE and DB_BID_ACCEPT.
pub data BidResult : Type 0 where
  nok refuse accept : BidResult

-- `a >= b` of two `long`s.
unfoldable pub at_least : ℤ → ℤ → Bool
at_least (pos m) (pos n) = leb n m
at_least (pos m) (negsuc n) = true
at_least (negsuc m) (pos n) = false
at_least (negsuc m) (negsuc n) = leb m n

-- A bid's file that cannot be read leaves the value of the one before, at first the empty text.
abbrev pub value_after : Bytes → Option BidInfo → Bytes
value_after old none = old
value_after old (some bid) = bid.value

-- The loop over the files of BIDS: whether one of them holds a bid that is not smaller.
unfoldable pub larger_bid : ℤ → Bytes → List FilePath → FileSystem → Outcome Bool
larger_bid value old [] fs = Outcome.ok false
larger_bid value old (p ∷ ps) fs = Outcome.◌>>=◌ (get_bid p fs) λ bid.
    Outcome.◌>>=◌ (stol (value_after old bid)) λ old_value.
      let rest = larger_bid value (value_after old bid) ps fs in
      if at_least old_value value then Outcome.ok true else rest

unfoldable pub too_small : ℤ → StartInfo → FileSystem → List FilePath → Outcome Bool
unfolding larger_bid
too_small value start fs [] =
    Outcome.◌>>=◌ (stol start.start_value) λ old_value. Outcome.ok (at_least old_value value)
too_small value start fs (p ∷ ps) = larger_bid value [] (p ∷ ps) fs

-- Whether the value is no larger than an existing bid, or, where there is none, than the value that
-- the auction starts at.
unfoldable pub is_too_small : Bytes → ℤ → StartInfo → FileSystem → Outcome Bool
unfolding too_small
is_too_small a_id value start fs =
    Outcome.◌>>=◌ (iterate (bids_dir a_id) fs) (too_small value start fs)

-- A request to bid, as `Bid` gets it.
pub record Bidding : Type 0 where
  pub user_id : Bytes
  pub password : Bytes
  pub a_id : Bytes
  pub bid_value : Bytes

unfoldable pub place_bid : Clock → Bidding → Action BidResult
unfolding post_return
place_bid clock b = do
  registered ← changes (register_bid b.user_id b.a_id)
  if not registered then post_return BidResult.refuse else do
    created ← changes_ok (create_bid_file clock b.a_id b.user_id b.bid_value)
    if not created then post_return BidResult.refuse else post_return BidResult.accept

-- An auction whose time is over is closed, and the exception leaves the semaphore taken.
unfoldable pub bid_in_time : Clock → Bidding → ℤ → StartInfo → Bool → Action BidResult
unfolding close place_bid post_throw
bid_in_time clock b value start true = close clock b.a_id >>= λ res. throw auction_already_closed
bid_in_time clock b value start false = do
  refused ← asks_ok (is_too_small b.a_id value start)
  if refused then post_throw larger_bid_already_exists else place_bid clock b

unfoldable pub bid_started : Clock → Bidding → ℤ → Option StartInfo → Action BidResult
unfolding bid_in_time post_throw
bid_started clock b value none = post_throw auction_not_found
bid_started clock b value (some start) =
    lift (has_expired clock start) >>= bid_in_time clock b value start

unfoldable pub bid_running : Clock → Bidding → Action BidResult
unfolding bid_started post_throw
bid_running clock b = do
  value ← lift (stol b.bid_value)
  ended ← asks (exists (end_file b.a_id))
  if ended
      then post_throw auction_already_closed
      else do start ← asks_ok (get_start b.a_id); bid_started clock b value start

unfoldable pub bid_locked : Clock → Bidding → Action BidResult
unfolding bid_running post_return post_throw
bid_locked clock b = do
  logged_in ← asks (check_user_logged_in b.user_id)
  if not logged_in then post_throw user_not_logged_in else do
    check ← asks (correct_password b.user_id b.password)
    if not (is_correct check) then post_return BidResult.nok else do
      is_there ← asks (check_auction_exists b.a_id)
      if not is_there then post_throw auction_not_found else do
        belongs ← asks_ok (check_auction_belongs b.a_id b.user_id)
        if belongs then post_throw bid_on_self else bid_running clock b

unfoldable pub bid : Clock → Bidding → Action BidResult
bid clock b = semaphore_wait >> bid_locked clock b
