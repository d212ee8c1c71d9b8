-- ===== src/Database/Auctions/Open/Effects.antt =====
-- What has happened when `Open` returns the id of a new auction, and when `CloseAuction` returns.
use proj_rc.Base.{ℕ, suc, ◌-◌, ◌<◌, true, ◌≡◌, ◌∙◌, sym, ap, subst, arith, inl, inr}
use proj_rc.Shared.Outcome.{ok, outcome-cases}
use proj_rc.Shared.Convert.{convert_auction_id_to_str}
use proj_rc.Database.Clock.{Clock}
use proj_rc.Database.Files.{FileSystem, find}
use proj_rc.Database.Files.Paths.{FilePath}
use proj_rc.Database.Files.Names.Laws.{IsFileName}
use proj_rc.Database.Monad.{Db, done, wait_then, post_return, post_throw, semaphore_post}
use proj_rc.Database.Users.{check_user_logged_in, correct_password, is_correct, register_host}
use proj_rc.Database.Auctions.Files.{create_auction_dir, create_start_file, create_asset_file}
use proj_rc.Database.Auctions.Open.Made.{with_auction, find-steps}
use proj_rc.Database.Auctions.Open.{
  Opening, opened, new_aid, give_up, create_auction, open_locked, open_auction,
}

-- The steps from the tree `fs` to the tree `fs'` that makes the auction `aid`.
pub record IsCreated (clock : Clock) (o : Opening) (aid : ℕ) (fs fs' : FileSystem) : Type 0 where
  pub with_dir : FileSystem
  pub with_start : FileSystem
  pub with_asset : FileSystem
  pub dirs : create_auction_dir (convert_auction_id_to_str aid) fs ≡ (true, with_dir)
  pub start :
      create_start_file clock
        (convert_auction_id_to_str aid)
        o.user_id
        o.name
        o.asset_fname
        o.start_value
        o.timeactive
        with_dir
      ≡ (true, with_start)
  pub asset :
      create_asset_file (convert_auction_id_to_str aid) o.asset_fname o.content with_start
      ≡ (true, with_asset)
  pub host : register_host o.user_id (convert_auction_id_to_str aid) with_asset ≡ (true, fs')

create_auction-IsCreated :
    (clock : Clock) (o : Opening) (n aid : ℕ) (db db' : Db)
    → create_auction clock o n db ≡ (done (opened aid), db')
    → (n ≡ aid) × IsCreated clock o n db.fs db'.fs × (db'.sem ≡ suc db.sem)
unfolding create_auction give_up post_return semaphore_post
create_auction-IsCreated clock o n aid db db' h =
    let a = convert_auction_id_to_str n in
    let r1 = create_auction_dir a db.fs in
    let r2 =
      create_start_file clock a o.user_id o.name o.asset_fname o.start_value o.timeactive r1.1 in
    let r3 = create_asset_file a o.asset_fname o.content r2.1 in
    (
      ground (arith, h),
      record {
        with_dir = r1.1;
        with_start = r2.1;
        with_asset = r3.1;
        dirs = ground (arith, h);
        start = ground (arith, h);
        asset = ground (arith, h);
        host = ground (arith, h);
      },
      ground (arith, h),
    )

-- What holds when `Open` has returned the id `aid`.
pub record IsOpened (clock : Clock) (o : Opening) (aid : ℕ) (db db' : Db) : Type 0 where
  pub logged_in : check_user_logged_in o.user_id db.fs ≡ true
  pub known : is_correct (correct_password o.user_id o.password db.fs) ≡ true
  pub numbered : new_aid db.fs ≡ ok aid
  pub bounded : aid < 1000
  -- What stands at each path afterwards.
  pub files :
      (p : FilePath)
      → find p db'.fs.entries
        ≡ with_auction clock o (convert_auction_id_to_str aid) p (find p db.fs.entries)
  pub released : db'.sem ≡ db.sem

open_locked-steps :
    (clock : Clock) (o : Opening) (n aid : ℕ) (db db' : Db)
    → new_aid db.fs ≡ ok n
    → open_locked clock o db ≡ (done (opened aid), db')
    → (check_user_logged_in o.user_id db.fs ≡ true)
      × (is_correct (correct_password o.user_id o.password db.fs) ≡ true)
      × (n < 1000)
      × (create_auction clock o n db ≡ (done (opened aid), db'))
unfolding open_locked post_return post_throw semaphore_post
open_locked-steps clock o n aid db db' e h =
    (ground (arith, h, e), ground (arith, h, e), ground (arith, h, e), ground (arith, h, e))

open_locked-numbered :
    (clock : Clock) (o : Opening) (aid : ℕ) (db db' : Db)
    → open_locked clock o db ≡ (done (opened aid), db')
    → (n : ℕ) × (new_aid db.fs ≡ ok n)
unfolding open_locked post_return post_throw semaphore_post
open_locked-numbered clock o aid db db' h = elim (outcome-cases (new_aid db.fs)) [
  | inl (n, e) ↦ (n, e)
  | inr (x, e) ↦ absurd (ground (arith, h, e))
]

pub open_auction-steps :
    (clock : Clock) (o : Opening) (aid : ℕ) (db db' : Db)
    → 0 < db.sem
    → open_auction clock o db ≡ (done (opened aid), db')
    → (check_user_logged_in o.user_id db.fs ≡ true)
      × (is_correct (correct_password o.user_id o.password db.fs) ≡ true)
      × (new_aid db.fs ≡ ok aid)
      × (aid < 1000)
      × IsCreated clock o aid db.fs db'.fs
      × (db'.sem ≡ db.sem)
unfolding open_auction
open_auction-steps clock o aid db db' free h =
    let at = record db { sem = db.sem - 1 } in
    let run : open_locked clock o at ≡ (done (opened aid), db') =
      sym (wait_then (open_locked clock o) db free) ∙ h in
    let (n, e) = open_locked-numbered clock o aid at db' run in
    let (logged_in, known, small, made) = open_locked-steps clock o n aid at db' e run in
    let (same, created, sem) = create_auction-IsCreated clock o n aid at db' made in
    (
      logged_in,
      known,
      e ∙ ap ok same,
      omega (arith, same, small),
      subst (λ k. IsCreated clock o k db.fs db'.fs) same created,
      sem ∙ omega arith,
    )

-- When `open_auction`, with the semaphore free and an asset whose name is that of a file
-- (`IsFileName`: not empty, no dots alone, no separator, no zero byte), returns an id, then
-- the user was logged in and the password was theirs, the id is the one that `new_aid` finds
-- in the tree before the call and is below 1000, and afterwards the three directories of the
-- auction, its START file with its text, the asset with its bytes and an empty entry in HOSTED
-- of the user stand at their paths, every other path has what it had before, and the semaphore
-- has the value that it had before.
pub open_auction-IsOpened :
    (clock : Clock) (o : Opening) (aid : ℕ) (db db' : Db)
    → IsFileName o.asset_fname
    → 0 < db.sem
    → open_auction clock o db ≡ (done (opened aid), db')
    → IsOpened clock o aid db db'
open_auction-IsOpened clock o aid db db' plain free h =
    let (logged_in, known, numbered, small, made, sem) =
      open_auction-steps clock o aid db db' free h in
    record {
      logged_in = logged_in;
      known = known;
      numbered = numbered;
      bounded = small;
      files = λ p.
          find-steps clock o (convert_auction_id_to_str aid) db.fs made.with_dir made.with_start
            made.with_asset db'.fs made.dirs made.start made.asset made.host plain p;
      released = sem;
    }
