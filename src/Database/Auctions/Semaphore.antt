-- ===== src/Database/Auctions/Semaphore.antt =====
-- Where the operations on auctions leave the semaphore.
pub mod Lost
pub mod Stuck
pub mod Gained
use proj_rc.Base.{ℕ, suc, ◌-◌, ◌<◌, ◌≡◌, ◌∙◌, refl, arith}
use proj_rc.Shared.Outcome.{Outcome, ok}
use proj_rc.Database.Clock.{Clock}
use proj_rc.Database.Monad.{Db, Reply, asks_ok, done, wait_then}
use proj_rc.Database.Monad.Runs.{Runs, waited-Runs}
use proj_rc.Database.Auctions.Open.{Opening, open_auction, open_locked, create_auction, new_aid}

create_auction-Runs :
    (clock : Clock) (o : Opening) (n : ℕ) (db : Db)
    → Runs (suc db.sem) (create_auction clock o n db)
unfolding create_auction
create_auction-Runs clock o n db = (ground arith, ground arith)

open_locked-Runs :
    (clock : Clock) (o : Opening) (n : ℕ) (db : Db)
    → new_aid db.fs ≡ ok n
    → Runs (suc db.sem) (open_locked clock o db)
unfolding open_locked
open_locked-Runs clock o n db e =
    let later = create_auction-Runs clock o n db in
    (ground (arith, e, later), ground (arith, e, later))

-- From any files where `new_aid` returns a number, for any request, with the semaphore free:
-- `open_auction` does not block, and when it returns or throws the semaphore has the value
-- that it had before.
pub open_auction-Runs :
    (clock : Clock) (o : Opening) (n : ℕ) (db : Db)
    → 0 < db.sem
    → new_aid db.fs ≡ ok n
    → Runs db.sem (open_auction clock o db)
unfolding open_auction
open_auction-Runs clock o n db free e =
    let at = record db { sem = db.sem - 1 } in
    let (runs, sem) = open_locked-Runs clock o n at e in
    rw (wait_then (open_locked clock o) db free) (runs, sem ∙ omega arith)
