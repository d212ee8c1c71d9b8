-- ===== src/Database/Auctions/Semaphore/Stuck.antt =====
-- A semaphore that is taken and not given back stops the server.
use proj_rc.Base.{◌-◌, ◌≡◌, refl, arith, Bool, false, true, some, ap, ◌∙◌, Bytes}
use proj_rc.Shared.Outcome.{ok, auction_already_closed}
use proj_rc.Shared.Decimal.{ℤ}
use proj_rc.Database.Clock.{Clock}
use proj_rc.Database.Files.{FileSystem, exists}
use proj_rc.Database.Files.Paths.{bare_end_file, hosted_dir, bidded_dir}
use proj_rc.Database.Files.Listing.{file_id}
use proj_rc.Database.Monad.{
  Action, Db, raised, blocked, semaphore_wait, wait_then, semaphore_wait-taken, ◌>>=◌, ◌>>◌,
}
use proj_rc.Database.Accounts.{
  login_user, logout, unregister, login_locked, logout_locked, unregister_locked,
}
use proj_rc.Database.Auctions.Infos.{StartInfo, get_start}
use proj_rc.Database.Auctions.Files.{EndCreation, create_end_file}
use proj_rc.Database.Auctions.Open.{Opening, open_auction, open_locked}
use proj_rc.Database.Auctions.Close.{close_auction, close_auction_locked, has_expired}
use proj_rc.Database.Auctions.Listings.{my_auctions, my_bids, list_dir}
use proj_rc.Database.Auctions.Bid.{Bidding, bid, bid_locked}
use proj_rc.Database.Auctions.Record.{Stack, show_record, show_record_locked}
use proj_rc.Database.Auctions.Semaphore.Lost.{
  MayBid, MayClose, bid-expired, close_auction_locked-owned, close_owned-existed,
}

-- Every operation that waits for the semaphore before it does anything blocks.
pub record IsStuck (db : Db) : Type 0 where
  pub login_user_waits : (u p : Bytes) → login_user u p db ≡ (blocked, db)
  pub logout_waits : (u p : Bytes) → logout u p db ≡ (blocked, db)
  pub unregister_waits : (u p : Bytes) → unregister u p db ≡ (blocked, db)
  pub open_waits : (clock : Clock) (o : Opening) → open_auction clock o db ≡ (blocked, db)
  pub close_waits :
      (clock : Clock) (a_id u p : Bytes) → close_auction clock a_id u p db ≡ (blocked, db)
  pub my_auctions_waits : (clock : Clock) (u : Bytes) → my_auctions clock u db ≡ (blocked, db)
  pub my_bids_waits : (clock : Clock) (u : Bytes) → my_bids clock u db ≡ (blocked, db)
  pub bid_waits : (clock : Clock) (b : Bidding) → bid clock b db ≡ (blocked, db)
  pub show_record_waits :
      (clock : Clock) (stack : Stack) (a_id : Bytes)
      → show_record clock stack a_id db ≡ (blocked, db)

wait-blocked :
    {B : Type 0} (k : Action B) (db : Db) → db.sem ≡ 0 → (semaphore_wait >> k) db ≡ (blocked, db)
wait-blocked k db e = rw (semaphore_wait-taken db e, ◌>>=◌, semaphore_wait-taken db e) refl

taken-IsStuck : (db : Db) → db.sem ≡ 0 → IsStuck db
unfolding login_user logout unregister open_auction close_auction my_auctions my_bids bid
    show_record
taken-IsStuck db e = record {
  login_user_waits = λ u p. wait-blocked (login_locked u p) db e;
  logout_waits = λ u p. wait-blocked (logout_locked u p) db e;
  unregister_waits = λ u p. wait-blocked (unregister_locked u p) db e;
  open_waits = λ clock o. wait-blocked (open_locked clock o) db e;
  close_waits = λ clock a u p. wait-blocked (close_auction_locked clock a u p) db e;
  my_auctions_waits = λ clock u. wait-blocked (list_dir clock (hosted_dir u) file_id) db e;
  my_bids_waits = λ clock u. wait-blocked (list_dir clock (bidded_dir u) file_id) db e;
  bid_waits = λ clock b. wait-blocked (bid_locked clock b) db e;
  show_record_waits = λ clock stack a. wait-blocked (show_record_locked clock stack a) db e;
}

-- A bid with the semaphore at 1 that passes the checks (`MayBid`) on an auction whose time is
-- over, where CreateEndFile does not throw, throws AuctionAlreadyClosed with the semaphore at
-- 0, whatever CreateEndFile comes to; after that every call of LoginUser, Logout, Unregister,
-- Open, CloseAuction, MyAuctions, MyBids, Bid and ShowRecord blocks.
pub bid-expired-IsStuck :
    (clock : Clock) (b : Bidding) (value : ℤ) (start : StartInfo) (r : EndCreation)
    (fs' : FileSystem) (db : Db)
    → db.sem ≡ 1
    → MayBid b value start db.fs
    → has_expired clock start ≡ ok true
    → create_end_file clock b.a_id db.fs ≡ ok (r, fs')
    → (bid clock b db ≡ (raised auction_already_closed, record { fs = fs'; sem = 0 }))
      × IsStuck (bid clock b db).1
bid-expired-IsStuck clock b value start r fs' db one m expired e =
    let run : bid clock b db ≡ (raised auction_already_closed, record { fs = fs'; sem = 0 }) =
      bid-expired clock b value start r fs' db (omega (arith, one)) m expired e
      ∙ ap (λ n. (raised auction_already_closed, record { fs = fs'; sem = n - 1 })) one in
    (run, taken-IsStuck _ (ap (λ q. q.1.sem) run))

-- CloseAuction with the semaphore at 1, by the host (`MayClose`), of an auction that has an
-- END file, with or without time left, and no file that is named END and the id without an
-- underscore, throws AuctionAlreadyClosed with the semaphore at 0; after that every call of
-- LoginUser, Logout, Unregister, Open, CloseAuction, MyAuctions, MyBids, Bid and ShowRecord
-- blocks.
pub close_auction-ended-IsStuck :
    (clock : Clock) (a_id u p : Bytes) (start : StartInfo) (expired : Bool) (fs' : FileSystem)
    (db : Db)
    → db.sem ≡ 1
    → MayClose a_id u p db.fs
    → exists (bare_end_file a_id) db.fs ≡ false
    → get_start a_id db.fs ≡ ok (some start)
    → has_expired clock start ≡ ok expired
    → create_end_file clock a_id db.fs ≡ ok (EndCreation.existed, fs')
    → (close_auction clock a_id u p db
        ≡ (raised auction_already_closed, record { fs = fs'; sem = 0 }))
      × IsStuck (close_auction clock a_id u p db).1
unfolding close_auction
close_auction-ended-IsStuck clock a_id u p start expired fs' db one m bare s x e =
    let at = record db { sem = db.sem - 1 } in
    let run : close_auction clock a_id u p db
        ≡ (raised auction_already_closed, record { fs = fs'; sem = 0 }) =
      wait_then (close_auction_locked clock a_id u p) db (omega (arith, one))
      ∙ (close_auction_locked-owned clock a_id u p at m
          ∙ (close_owned-existed clock a_id start expired fs' at bare s x e
              ∙ ap (λ n. (raised auction_already_closed, record { fs = fs'; sem = n - 1 })) one)) in
    (run, taken-IsStuck _ (ap (λ q. q.1.sem) run))
