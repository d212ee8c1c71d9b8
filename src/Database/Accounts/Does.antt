-- ===== src/Database/Accounts/Does.antt =====
-- When a call of an account operation does what the specification says, and nothing else.
use proj_rc.Base.{◌-◌, ◌≡◌, refl, Bytes}
use proj_rc.Database.Files.{FileSystem}
use proj_rc.Database.Monad.{Db}
use proj_rc.Database.Users.State.{Account, Represents, IsUsable, SameElsewhere, SameElsewhere-trans}
use proj_rc.Database.Users.Laws.{Moves}

-- A call that began at `db` answered as `expected` says, and the account of `u` is in the state
-- that `expected` says. The other accounts and the semaphore are as before.
pub record Does {R : Type 0} (u : Bytes) (db : Db) (r : R × Db) (expected : R × Account)
    : Type 0 where
  pub answer : r.0 ≡ expected.0
  pub holds : Represents r.1.fs.entries u expected.1
  pub elsewhere : SameElsewhere u db.fs.entries r.1.fs.entries
  pub usable : IsUsable r.1.fs
  pub same_sem : r.1.sem ≡ db.sem

module _ {R : Type 0} (u : Bytes) (db : Db) (us : IsUsable db.fs) where
  -- A call that changes nothing.
  pub nothing-Does :
      {r : R × Db} (reply : R) (account : Account)
      → r ≡ (reply, db)
      → Represents db.fs.entries u account
      → Does u db r (reply, account)
  nothing-Does reply account e h =
      rw e
        (record { answer = refl; holds = h; elsewhere = λ q o. refl; usable = us; same_sem = refl })

  -- A call that leaves the tree of a last step, `step`, which began at `mid`.
  pub steps-Does :
      {A : Type 0} {r : R × Db} (reply : R) (account : Account) {mid : FileSystem}
      {step : A × FileSystem} {code : A}
      → r ≡ (reply, record db { fs = step.1 })
      → SameElsewhere u db.fs.entries mid.entries
      → Moves u mid step code account
      → Does u db r (reply, account)
  steps-Does reply account {mid} {step} e before m = rw e (record {
    answer = refl;
    holds = m.holds;
    elsewhere = SameElsewhere-trans u db.fs.entries mid.entries step.1.entries before m.elsewhere;
    usable = m.usable;
    same_sem = refl;
  })

-- What answers a call's reply leaves the rest as the call did.
pub answer-Does :
    {R S : Type 0} (f : R → S) {u : Bytes} {db : Db} {r : R × Db} {expected : R × Account}
    → Does u db r expected
    → Does u db (f r.0, r.1) (f expected.0, expected.1)
answer-Does f d = record {
  answer = rw d.answer;
  holds = d.holds;
  elsewhere = d.elsewhere;
  usable = d.usable;
  same_sem = d.same_sem;
}

-- The database while the semaphore is taken.
abbrev pub taken : Db → Db
taken db = record db { sem = db.sem - 1 }
