-- ===== src/Database/Auctions/Close/Effects.antt =====
-- What has happened when `CloseAuction` returns that it has closed the auction.
use proj_rc.Base.{
  suc, ◌-◌, ◌<◌, true, false, ◌≡◌, ◌∙◌, sym, refl, ap, arith, inl, inr, Bool, some, none, Bytes,
}
use proj_rc.Shared.Outcome.{Exception, ok, raised, outcome-cases}
use proj_rc.Database.Clock.{Clock}
use proj_rc.Database.Files.{FileSystem}
use proj_rc.Database.Monad.{Db, done, wait_then, post_return, post_throw, semaphore_post}
use proj_rc.Database.Users.{check_user_existed, check_user_logged_in, correct_password, is_correct}
use proj_rc.Database.Auctions.Infos.{
  StartInfo, get_start, check_auction_belongs, check_auction_exists,
}
use proj_rc.Database.Auctions.Files.{EndCreation, create_end_file}
use proj_rc.Database.Auctions.Close.{
  CloseResult, close_by_file, close, has_expired, close_expired, close_started, close_owned,
  close_auction_locked, close_auction,
}

-- What holds when `CloseAuction` has returned DB_CLOSE_OK.
pub record IsClosed (clock : Clock) (a_id user_id password : Bytes) (db db' : Db) : Type 0 where
  pub start : StartInfo
  pub existed : check_user_existed user_id db.fs ≡ true
  pub logged_in : check_user_logged_in user_id db.fs ≡ true
  pub known : is_correct (correct_password user_id password db.fs) ≡ true
  pub is_there : check_auction_exists a_id db.fs ≡ true
  pub owned : check_auction_belongs a_id user_id db.fs ≡ ok true
  pub started : get_start a_id db.fs ≡ ok (some start)
  pub in_time : has_expired clock start ≡ ok false
  pub created : create_end_file clock a_id db.fs ≡ ok (EndCreation.created, db'.fs)
  pub released : db'.sem ≡ db.sem

close_auction_locked-steps :
    (clock : Clock) (a_id user_id password : Bytes) (db db' : Db)
    → close_auction_locked clock a_id user_id password db ≡ (done CloseResult.ok, db')
    → (check_user_existed user_id db.fs ≡ true)
      × (check_user_logged_in user_id db.fs ≡ true)
      × (is_correct (correct_password user_id password db.fs) ≡ true)
      × (check_auction_exists a_id db.fs ≡ true)
      × (check_auction_belongs a_id user_id db.fs ≡ ok true)
      × (close_owned clock a_id db ≡ (done CloseResult.ok, db'))
unfolding close_auction_locked post_throw semaphore_post
close_auction_locked-steps clock a_id u p db db' h = (
  ground (arith, h),
  ground (arith, h),
  ground (arith, h),
  ground (arith, h),
  ground (arith, h),
  ground (arith, h),
)

close_expired-created :
    (clock : Clock) (a_id : Bytes) (b : Bool) (r : EndCreation) (fs' : FileSystem) (db db' : Db)
    → create_end_file clock a_id db.fs ≡ ok (r, fs')
    → close_expired clock a_id b db ≡ (done CloseResult.ok, db')
    → (b ≡ false)
      × (create_end_file clock a_id db.fs ≡ ok (EndCreation.created, db'.fs))
      × (db'.sem ≡ suc db.sem)
unfolding close_expired close close_by_file post_return post_throw semaphore_post
close_expired-created clock a_id true EndCreation.created fs' db db' e h =
    absurd (ground (arith, h, e))
close_expired-created clock a_id true EndCreation.failed fs' db db' e h =
    absurd (ground (arith, h, e))
close_expired-created clock a_id true EndCreation.existed fs' db db' e h =
    absurd (ground (arith, h, e))
close_expired-created clock a_id false EndCreation.created fs' db db' e h =
    (refl, ground (arith, h, e), ground (arith, h, e))
close_expired-created clock a_id false EndCreation.failed fs' db db' e h =
    absurd (ground (arith, h, e))
close_expired-created clock a_id false EndCreation.existed fs' db db' e h =
    absurd (ground (arith, h, e))

close_expired-throws :
    (clock : Clock) (a_id : Bytes) (b : Bool) (x : Exception) (db db' : Db)
    → create_end_file clock a_id db.fs ≡ raised x
    → ¬ (close_expired clock a_id b db ≡ (done CloseResult.ok, db'))
unfolding close_expired close
close_expired-throws clock a_id true x db db' e h = ground (arith, h, e)
close_expired-throws clock a_id false x db db' e h = ground (arith, h, e)

close_owned-created :
    (clock : Clock) (a_id : Bytes) (db db' : Db)
    → close_owned clock a_id db ≡ (done CloseResult.ok, db')
    → (start : StartInfo) × (get_start a_id db.fs ≡ ok (some start))
      × (has_expired clock start ≡ ok false)
      × (create_end_file clock a_id db.fs ≡ ok (EndCreation.created, db'.fs))
      × (db'.sem ≡ suc db.sem)
unfolding close_owned close_started post_throw semaphore_post
close_owned-created clock a_id db db' h = elim (outcome-cases (get_start a_id db.fs)) [
  | inr (x, e) ↦ absurd (ground (arith, h, e))
  | inl (none, e) ↦ absurd (ground (arith, h, e))
  | inl (some start, e) ↦ elim (outcome-cases (has_expired clock start)) [
    | inr (x, f) ↦ absurd (ground (arith, h, e, f))
    | inl (b, f) ↦
        let run : close_expired clock a_id b db ≡ (done CloseResult.ok, db') =
          ground (arith, h, e, f) in
        elim (outcome-cases (create_end_file clock a_id db.fs)) [
          | inr (x, g) ↦ absurd (close_expired-throws clock a_id b x db db' g run)
          | inl ((r, fs'), g) ↦
              let (now, made, sem) = close_expired-created clock a_id b r fs' db db' g run in
              (start, e, f ∙ ap ok now, made, sem)
        ]
  ]
]

-- When `close_auction`, with the semaphore free, returns DB_CLOSE_OK, then before the call the
-- user existed and was logged in, the password was theirs, the auction was there, theirs, had
-- a START file and time left; CreateEndFile has created the END file, and the semaphore has
-- the value that it had before.
pub close_auction-IsClosed :
    (clock : Clock) (a_id user_id password : Bytes) (db db' : Db)
    → 0 < db.sem
    → close_auction clock a_id user_id password db ≡ (done CloseResult.ok, db')
    → IsClosed clock a_id user_id password db db'
unfolding close_auction
close_auction-IsClosed clock a_id u p db db' free h =
    let at = record db { sem = db.sem - 1 } in
    let run : close_auction_locked clock a_id u p at ≡ (done CloseResult.ok, db') =
      sym (wait_then (close_auction_locked clock a_id u p) db free) ∙ h in
    let (existed, logged_in, known, is_there, owned, rest) =
      close_auction_locked-steps clock a_id u p at db' run in
    let (start, started, in_time, created, sem) = close_owned-created clock a_id at db' rest in
    record {
      start = start;
      existed = existed;
      logged_in = logged_in;
      known = known;
      is_there = is_there;
      owned = owned;
      started = started;
      in_time = in_time;
      created = created;
      released = sem ∙ omega arith;
    }
