-- ===== src/Database/Auctions/Bid/Accept.antt =====
-- What has been looked at when `Bid` accepts a bid.
use proj_rc.Base.{
  suc, ◌-◌, ◌<◌, true, false, ◌≡◌, ◌∙◌, sym, refl, ap, arith, Bool, Option, some, none, List, [],
  ◌∷◌, All, inl, inr, Bytes,
}
use proj_rc.Shared.Outcome.{ok, ok-injective, outcome-cases}
use proj_rc.Shared.Decimal.{ℤ, stol}
use proj_rc.Database.Clock.{Clock}
use proj_rc.Database.Files.{FileSystem, exists}
use proj_rc.Database.Files.Paths.{FilePath, end_file, bids_dir}
use proj_rc.Database.Files.Listing.{iterate}
use proj_rc.Database.Monad.{Db, done, wait_then, post_return, post_throw, semaphore_post}
use proj_rc.Database.Users.{check_user_logged_in, correct_password, is_correct, register_bid}
use proj_rc.Database.Auctions.Infos.{
  StartInfo, BidInfo, get_start, get_bid, check_auction_exists, check_auction_belongs,
}
use proj_rc.Database.Auctions.Files.{create_bid_file}
use proj_rc.Database.Auctions.Close.{has_expired}
use proj_rc.Database.Auctions.Bid.{
  BidResult, Bidding, at_least, value_after, larger_bid, too_small, is_too_small, place_bid,
  bid_in_time, bid_started, bid_running, bid_locked, bid,
}

-- The bid that the file holds is smaller.
abbrev pub IsBeaten : ℤ → FileSystem → FilePath → Type 0
IsBeaten value fs p =
    (b : BidInfo) (v : ℤ)
    → get_bid p fs ≡ ok (some b)
    → stol b.value ≡ ok v
    → at_least v value ≡ false

bid_locked-accept :
    (clock : Clock) (b : Bidding) (db db' : Db)
    → bid_locked clock b db ≡ (done BidResult.accept, db')
    → (check_user_logged_in b.user_id db.fs ≡ true)
      × (is_correct (correct_password b.user_id b.password db.fs) ≡ true)
      × (check_auction_exists b.a_id db.fs ≡ true)
      × (check_auction_belongs b.a_id b.user_id db.fs ≡ ok false)
      × (bid_running clock b db ≡ (done BidResult.accept, db'))
unfolding bid_locked post_return post_throw semaphore_post
bid_locked-accept clock b db db' h =
    (ground (arith, h), ground (arith, h), ground (arith, h), ground (arith, h), ground (arith, h))

-- The value of the bid and the start of the auction, and what they were compared with.
pub record IsJudged (clock : Clock) (b : Bidding) (fs : FileSystem) : Type 0 where
  pub value : ℤ
  pub start : StartInfo
  pub has_value : stol b.bid_value ≡ ok value
  pub open_still : exists (end_file b.a_id) fs ≡ false
  pub started : get_start b.a_id fs ≡ ok (some start)
  pub in_time : has_expired clock start ≡ ok false
  pub large_enough : is_too_small b.a_id value start fs ≡ ok false

bid_in_time-accept :
    (clock : Clock) (b : Bidding) (value : ℤ) (start : StartInfo) (x : Bool) (db db' : Db)
    → bid_in_time clock b value start x db ≡ (done BidResult.accept, db')
    → (x ≡ false)
      × (is_too_small b.a_id value start db.fs ≡ ok false)
      × (place_bid clock b db ≡ (done BidResult.accept, db'))
unfolding bid_in_time post_throw semaphore_post
bid_in_time-accept clock b value start true db db' h = absurd (ground (arith, h))
bid_in_time-accept clock b value start false db db' h = (refl, ground (arith, h), ground (arith, h))

bid_started-accept :
    (clock : Clock) (b : Bidding) (value : ℤ) (s : Option StartInfo) (db db' : Db)
    → bid_started clock b value s db ≡ (done BidResult.accept, db')
    → (start : StartInfo) × (s ≡ some start)
      × (has_expired clock start ≡ ok false)
      × (is_too_small b.a_id value start db.fs ≡ ok false)
      × (place_bid clock b db ≡ (done BidResult.accept, db'))
unfolding bid_started post_throw semaphore_post
bid_started-accept clock b value none db db' h = absurd (ground (arith, h))
bid_started-accept clock b value (some start) db db' h =
    elim (outcome-cases (has_expired clock start)) [
      | inl (x, e) ↦
          let (now, large, placed) =
            bid_in_time-accept clock b value start x db db' (ground (arith, h, e)) in
          (start, refl, e ∙ ap ok now, large, placed)
      | inr (x, e) ↦ absurd (ground (arith, h, e))
    ]

bid_running-accept :
    (clock : Clock) (b : Bidding) (db db' : Db)
    → bid_running clock b db ≡ (done BidResult.accept, db')
    → IsJudged clock b db.fs × (place_bid clock b db ≡ (done BidResult.accept, db'))
unfolding bid_running post_throw semaphore_post
bid_running-accept clock b db db' h = elim (outcome-cases (stol b.bid_value)) [
  | inr (x, e) ↦ absurd (ground (arith, h, e))
  | inl (value, e) ↦ elim (outcome-cases (get_start b.a_id db.fs)) [
    | inr (x, g) ↦ absurd (ground (arith, h, e, g))
    | inl (s, g) ↦
        let open_still : exists (end_file b.a_id) db.fs ≡ false = ground (arith, h, e) in
        let (start, k, in_time, large, placed) =
          bid_started-accept clock b value s db db' (ground (arith, h, e, g)) in
        (
          record {
            value = value;
            start = start;
            has_value = e;
            open_still = open_still;
            started = rw (sym k) g;
            in_time = in_time;
            large_enough = large;
          },
          placed,
        )
  ]
]

-- The loop over the bids answers no only when every bid that it read is smaller.
larger_bid-IsBeaten :
    (value : ℤ) (old : Bytes) (ps : List FilePath) (fs : FileSystem)
    → larger_bid value old ps fs ≡ ok false
    → All (IsBeaten value fs) ps
unfolding larger_bid
larger_bid-IsBeaten value old [] fs h = tt
larger_bid-IsBeaten value old (p ∷ ps) fs h = elim (outcome-cases (get_bid p fs)) [
  | inr (x, e) ↦ absurd (ground (arith, h, e))
  | inl (b, e) ↦ elim (outcome-cases (stol (value_after old b))) [
    | inr (x, g) ↦ absurd (ground (arith, h, e, g))
    | inl (v, g) ↦ (
      λ c n k l.
          let same : b ≡ some c = ok-injective (sym e ∙ k) in
          let equal : v ≡ n =
            ok-injective (sym g ∙ (ap (λ q. stol (value_after old q)) same ∙ l)) in
          let beaten : at_least v value ≡ false = ground (arith, h, e, g) in
          ap (λ q. at_least q value) (sym equal) ∙ beaten,
      larger_bid-IsBeaten value (value_after old b) ps fs (ground (arith, h, e, g)),
    )
  ]
]

-- Every bid on the auction is smaller; without a bid, the value that the auction starts at is.
pub record IsLarger (b : Bidding) (value : ℤ) (start : StartInfo) (fs : FileSystem) : Type 0 where
  pub bids : List FilePath
  pub listed : iterate (bids_dir b.a_id) fs ≡ ok bids
  pub beats : All (IsBeaten value fs) bids
  pub beats_start : bids ≡ [] → (v : ℤ) → stol start.start_value ≡ ok v → at_least v value ≡ false

is_too_small-IsLarger :
    (b : Bidding) (value : ℤ) (start : StartInfo) (fs : FileSystem)
    → is_too_small b.a_id value start fs ≡ ok false
    → IsLarger b value start fs
unfolding is_too_small too_small
is_too_small-IsLarger b value start fs h = elim (outcome-cases (iterate (bids_dir b.a_id) fs)) [
  | inr (x, e) ↦ absurd (ground (arith, h, e))
  | inl ([], e) ↦ record {
    bids = [];
    listed = e;
    beats = tt;
    beats_start = λ q v g. ground (arith, h, e, g);
  }
  | inl (p ∷ ps, e) ↦ record {
    bids = p ∷ ps;
    listed = e;
    beats = larger_bid-IsBeaten value [] (p ∷ ps) fs (ground (arith, h, e));
    beats_start = λ q v g. absurd cc;
  }
]

-- The two files of a bid have been made, from the tree `fs`.
pub record IsPlaced (clock : Clock) (b : Bidding) (fs fs' : FileSystem) : Type 0 where
  pub between : FileSystem
  pub registered : register_bid b.user_id b.a_id fs ≡ (true, between)
  pub created : create_bid_file clock b.a_id b.user_id b.bid_value between ≡ ok (true, fs')

place_bid-accept :
    (clock : Clock) (b : Bidding) (db db' : Db)
    → place_bid clock b db ≡ (done BidResult.accept, db')
    → IsPlaced clock b db.fs db'.fs × (db'.sem ≡ suc db.sem)
unfolding place_bid post_return semaphore_post
place_bid-accept clock b db db' h =
    let r = register_bid b.user_id b.a_id db.fs in
    elim (outcome-cases (create_bid_file clock b.a_id b.user_id b.bid_value r.1)) [
      | inr (x, e) ↦ absurd (ground (arith, h, e))
      | inl ((made, fs'), e) ↦ (
        record { between = r.1; registered = ground (arith, h, e); created = ground (arith, h, e) },
        ground (arith, h, e),
      )
    ]

-- What holds of the tree, of the bid and of the tree afterwards, when a bid has been accepted.
pub record IsAccepted (clock : Clock) (b : Bidding) (db db' : Db) : Type 0 where
  pub logged_in : check_user_logged_in b.user_id db.fs ≡ true
  pub known : is_correct (correct_password b.user_id b.password db.fs) ≡ true
  pub is_there : check_auction_exists b.a_id db.fs ≡ true
  pub foreign : check_auction_belongs b.a_id b.user_id db.fs ≡ ok false
  pub judged : IsJudged clock b db.fs
  pub larger : IsLarger b judged.value judged.start db.fs
  pub placed : IsPlaced clock b db.fs db'.fs
  pub released : db'.sem ≡ db.sem

-- When `bid`, with the semaphore free, returns DB_BID_ACCEPT, then before the call the user
-- was logged in, the password was theirs, the auction was there, was not theirs, had a START
-- file, no END file and time left; the value was larger than that of every bid whose file
-- could be read or, where BIDS was empty, than the start value; the files of the bid have been
-- made, and the semaphore has the value that it had before.
pub bid-IsAccepted :
    (clock : Clock) (b : Bidding) (db db' : Db)
    → 0 < db.sem
    → bid clock b db ≡ (done BidResult.accept, db')
    → IsAccepted clock b db db'
unfolding bid
bid-IsAccepted clock b db db' free h =
    let at = record db { sem = db.sem - 1 } in
    let (logged_in, known, is_there, foreign, run) =
      bid_locked-accept clock b at db' (sym (wait_then (bid_locked clock b) db free) ∙ h) in
    let (judged, place) = bid_running-accept clock b at db' run in
    let (placed, sem) = place_bid-accept clock b at db' place in
    record {
      logged_in = logged_in;
      known = known;
      is_there = is_there;
      foreign = foreign;
      judged = judged;
      larger = is_too_small-IsLarger b judged.value judged.start db.fs judged.large_enough;
      placed = placed;
      released = sem ∙ omega arith;
    }
