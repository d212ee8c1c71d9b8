-- ===== src/Database/Monad.antt =====
-- The state of `Database` and of the tree that it keeps, and what a call of one of its operations
-- comes to.
pub mod Runs
use proj_rc.Base.{ℕ, suc, ◌-◌, ◌<◌, ◌≡◌, ◌==◌, arith, if◌then◌else◌}
use proj_rc.Shared.Outcome.{Exception, Outcome}
use proj_rc.Database.Files.{FileSystem}

-- `sem` is the value of the named semaphore `_sem`, which starts at 1.
pub record Db : Type 0 where
  pub fs : FileSystem
  pub sem : ℕ

-- `blocked`: the process waits in `sem_wait`, and goes on only when another process posts.
pub data Reply (A : Type 0) : Type 0 where
  done : A → Reply A
  raised : Exception → Reply A
  blocked : Reply A

-- A call returns the database as it is when the call returns, throws or blocks.
abbrev pub Action : Type 0 → Type 0
Action A = Db → Reply A × Db

module _ {A : Type 0} where
  abbrev pub pure : A → Action A
  pure a db = (done a, db)

  abbrev pub throw : Exception → Action A
  throw e db = (raised e, db)

  -- A question to the file system.
  abbrev pub asks : (FileSystem → A) → Action A
  asks f db = (done (f db.fs), db)

  -- A step that changes the file system.
  abbrev pub changes : (FileSystem → A × FileSystem) → Action A
  changes f db = let (a, fs') = f db.fs in (done a, record db { fs = fs' })

infixl 5 ◌>>=◌ ◌>>◌
abbrev pub ◌>>=◌ : {A B : Type 0} → Action A → (A → Action B) → Action B
◌>>=◌ m f db =
    let (r, db') = m db in
    elim r [ done a ↦ f a db' | raised e ↦ (raised e, db') | blocked ↦ (blocked, db') ]

abbrev pub ◌>>◌ : {B : Type 0} → Action (Unit {0}) → Action B → Action B
m >> k = m >>= λ _. k

-- A failure of `sem_wait` or `sem_post` itself (SemException) is not modelled: it needs an
-- interrupted call or an invalid semaphore.
unfoldable pub semaphore_wait : Action (Unit {0})
semaphore_wait db = if db.sem == 0 then (blocked, db) else (done tt, record db { sem = db.sem - 1 })

unfoldable pub semaphore_post : Action (Unit {0})
semaphore_post db = (done tt, record db { sem = suc db.sem })

module _ {A : Type 0} where
  -- What a computation on the files gives, or throws.
  abbrev pub reply_of : Outcome A → Reply A
  reply_of (Outcome.ok a) = done a
  reply_of (Outcome.raised e) = raised e

  abbrev pub lift : Outcome A → Action A
  lift r db = (reply_of r, db)

  -- A question to the file system that may throw.
  abbrev pub asks_ok : (FileSystem → Outcome A) → Action A
  asks_ok f db = (reply_of (f db.fs), db)

  abbrev change_to : Db → Outcome (A × FileSystem) → Reply A × Db
  change_to db (Outcome.ok (a, fs')) = (done a, record db { fs = fs' })
  change_to db (Outcome.raised e) = (raised e, db)

  -- A step that changes the file system, or throws before it does.
  abbrev pub changes_ok : (FileSystem → Outcome (A × FileSystem)) → Action A
  changes_ok f db = change_to db (f db.fs)

  -- `semaphore_post(); return a;`
  unfoldable pub post_return : A → Action A
  unfolding semaphore_post
  post_return a = do semaphore_post; pure a

  -- `semaphore_post(); throw e;`
  unfoldable pub post_throw : Exception → Action A
  unfolding semaphore_post
  post_throw e = do semaphore_post; throw e

-- A semaphore that is free is taken.
pub semaphore_wait-free :
    (db : Db) → 0 < db.sem → semaphore_wait db ≡ (done tt, record db { sem = db.sem - 1 })
unfolding semaphore_wait
semaphore_wait-free db h = ground arith

-- What follows a wait runs with the semaphore taken.
pub wait_then :
    {B : Type 0} (k : Action B) (db : Db)
    → 0 < db.sem
    → (semaphore_wait >> k) db ≡ k (record db { sem = db.sem - 1 })
wait_then k db h = rw (semaphore_wait-free db h, ◌>>=◌, semaphore_wait-free db h)

-- A semaphore that is taken blocks.
pub semaphore_wait-taken : (db : Db) → db.sem ≡ 0 → semaphore_wait db ≡ (blocked, db)
unfolding semaphore_wait
semaphore_wait-taken db h = ground arith
