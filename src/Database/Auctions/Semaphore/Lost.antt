-- ===== src/Database/Auctions/Semaphore/Lost.antt =====
-- Paths that keep the semaphore.
use proj_rc.Base.{◌-◌, ◌<◌, true, false, ◌≡◌, ◌∙◌, arith, Bool, some, Bytes}
use proj_rc.Shared.Outcome.{ok, auction_already_closed}
use proj_rc.Shared.Decimal.{ℤ, stol}
use proj_rc.Database.Clock.{Clock}
use proj_rc.Database.Files.{FileSystem, exists}
use proj_rc.Database.Files.Paths.{end_file, bare_end_file}
use proj_rc.Database.Monad.{Db, raised, wait_then, ◌>>=◌, throw}
use proj_rc.Database.Users.{check_user_existed, check_user_logged_in, correct_password, is_correct}
use proj_rc.Database.Auctions.Infos.{
  StartInfo, get_start, check_auction_exists, check_auction_belongs,
}
use proj_rc.Database.Auctions.Files.{EndCreation, create_end_file}
use proj_rc.Database.Auctions.Close.{
  close, close_auction_locked, has_expired, close_expired, close_started, close_owned,
  close_by_file,
}
use proj_rc.Database.Auctions.Bid.{
  Bidding, bid, bid_locked, bid_running, BidResult, bid_started, bid_in_time,
}

-- What `Bid` looks at before it looks at the time.
pub record MayBid (b : Bidding) (value : ℤ) (start : StartInfo) (fs : FileSystem) : Type 0 where
  pub logged_in : check_user_logged_in b.user_id fs ≡ true
  pub known : is_correct (correct_password b.user_id b.password fs) ≡ true
  pub is_there : check_auction_exists b.a_id fs ≡ true
  pub foreign : check_auction_belongs b.a_id b.user_id fs ≡ ok false
  pub has_value : stol b.bid_value ≡ ok value
  pub open_still : exists (end_file b.a_id) fs ≡ false
  pub started : get_start b.a_id fs ≡ ok (some start)

bid_locked-running :
    (clock : Clock) (b : Bidding) (value : ℤ) (start : StartInfo) (db : Db)
    → MayBid b value start db.fs
    → bid_locked clock b db ≡ bid_running clock b db
unfolding bid_locked
bid_locked-running clock b value start db m =
    ground (arith, m.logged_in, m.known, m.is_there, m.foreign)

-- Behind `Close`, the exception is thrown whatever `Close` comes to.
close-throw :
    {A : Type 0} (clock : Clock) (a_id : Bytes) (r : EndCreation) (fs' : FileSystem) (db : Db)
    → create_end_file clock a_id db.fs ≡ ok (r, fs')
    → ((close clock a_id >>= λ res. throw {A = A} auction_already_closed) db)
      ≡ (raised auction_already_closed, record db { fs = fs' })
unfolding close close_by_file
close-throw clock a_id EndCreation.created fs' db e = ground (arith, e)
close-throw clock a_id EndCreation.failed fs' db e = ground (arith, e)
close-throw clock a_id EndCreation.existed fs' db e = ground (arith, e)

bid_running-expired :
    (clock : Clock) (b : Bidding) (value : ℤ) (start : StartInfo) (r : EndCreation)
    (fs' : FileSystem) (db : Db)
    → MayBid b value start db.fs
    → has_expired clock start ≡ ok true
    → create_end_file clock b.a_id db.fs ≡ ok (r, fs')
    → bid_running clock b db ≡ (raised auction_already_closed, record db { fs = fs' })
unfolding bid_running bid_started bid_in_time
bid_running-expired clock b value start r fs' db m expired e =
    let shut = close-throw {A = BidResult} clock b.a_id r fs' db e in
    ground (arith, m.has_value, m.open_still, m.started, expired, shut)

pub bid-expired :
    (clock : Clock) (b : Bidding) (value : ℤ) (start : StartInfo) (r : EndCreation)
    (fs' : FileSystem) (db : Db)
    → 0 < db.sem
    → MayBid b value start db.fs
    → has_expired clock start ≡ ok true
    → create_end_file clock b.a_id db.fs ≡ ok (r, fs')
    → bid clock b db ≡ (raised auction_already_closed, record { fs = fs'; sem = db.sem - 1 })
unfolding bid
bid-expired clock b value start r fs' db free m expired e =
    let at = record db { sem = db.sem - 1 } in
    wait_then (bid_locked clock b) db free
    ∙ (bid_locked-running clock b value start at m
        ∙ bid_running-expired clock b value start r fs' at m expired e)

-- What `CloseAuction` looks at before it looks at the files of the auction.
pub record MayClose (a_id user_id password : Bytes) (fs : FileSystem) : Type 0 where
  pub existed : check_user_existed user_id fs ≡ true
  pub logged_in : check_user_logged_in user_id fs ≡ true
  pub known : is_correct (correct_password user_id password fs) ≡ true
  pub is_there : check_auction_exists a_id fs ≡ true
  pub owned : check_auction_belongs a_id user_id fs ≡ ok true

pub close_auction_locked-owned :
    (clock : Clock) (a_id user_id password : Bytes) (db : Db)
    → MayClose a_id user_id password db.fs
    → close_auction_locked clock a_id user_id password db ≡ close_owned clock a_id db
unfolding close_auction_locked
close_auction_locked-owned clock a_id user_id password db m =
    ground (arith, m.existed, m.logged_in, m.known, m.is_there, m.owned)

close_expired-existed :
    (clock : Clock) (a_id : Bytes) (b : Bool) (fs' : FileSystem) (db : Db)
    → create_end_file clock a_id db.fs ≡ ok (EndCreation.existed, fs')
    → close_expired clock a_id b db ≡ (raised auction_already_closed, record db { fs = fs' })
unfolding close_expired close close_by_file
close_expired-existed clock a_id true fs' db e = ground (arith, e)
close_expired-existed clock a_id false fs' db e = ground (arith, e)

pub close_owned-existed :
    (clock : Clock) (a_id : Bytes) (start : StartInfo) (b : Bool) (fs' : FileSystem) (db : Db)
    → exists (bare_end_file a_id) db.fs ≡ false
    → get_start a_id db.fs ≡ ok (some start)
    → has_expired clock start ≡ ok b
    → create_end_file clock a_id db.fs ≡ ok (EndCreation.existed, fs')
    → close_owned clock a_id db ≡ (raised auction_already_closed, record db { fs = fs' })
unfolding close_owned close_started
close_owned-existed clock a_id start b fs' db bare s x e =
    ground (arith, bare, s, x, close_expired-existed clock a_id b fs' db e)
