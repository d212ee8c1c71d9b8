-- ===== src/Database/Monad/Runs.antt =====
-- Calls that do not wait for another process, and where they leave the semaphore.
use proj_rc.Base.{ℕ, suc, ◌-◌, ◌<◌, ◌≡◌, ◌≢◌, ◌∙◌, refl, sym, ap, inl, inr, arith}
use proj_rc.Shared.Outcome.{Outcome, ok, outcome-cases}
use proj_rc.Database.Files.{FileSystem}
use proj_rc.Database.Monad.{
  Db, Action, Reply, asks_ok, done, raised, blocked, wait_then, semaphore_wait, ◌>>◌, ◌>>=◌,
}

-- The call returns or throws, and leaves the semaphore at `n`.
abbrev pub Runs : {A : Type 0} → ℕ → Reply A × Db → Type 0
Runs n r = (r.0 ≢ blocked) × (r.1.sem ≡ n)

pub waited-Runs :
    {A : Type 0} (k : Action A) (db : Db)
    → 0 < db.sem
    → ((at : Db) → Runs (suc at.sem) (k at))
    → Runs db.sem ((semaphore_wait >> k) db)
waited-Runs k db free h =
    let (runs, sem) = h (record db { sem = db.sem - 1 }) in
    rw (wait_then k db free) (runs, sem ∙ omega arith)

-- What goes on after a call that ran.
pub bind-Runs :
    {A B : Type 0} {n : ℕ} (m : Action A) (k : A → Action B) (db : Db) (r : Reply A × Db)
    → m db ≡ r
    → Runs n r
    → ((x : A) (at : Db) → at.sem ≡ n → Runs n (k x at))
    → Runs n ((m >>= k) db)
bind-Runs m k db (done x, at) e (runs, sem) h = rw (e, ◌>>=◌, e) (h x at sem)
bind-Runs m k db (raised x, at) e (runs, sem) h = rw (e, ◌>>=◌, e) (cc, sem)
bind-Runs m k db (blocked, at) e (runs, sem) h = absurd (runs refl)

pub done-injective :
    {A : Type 0} {x y : A} {db db' : Db} → ◌≡◌ {A = Reply A × Db} (done x, db) (done y, db') → x ≡ y
done-injective h = cc

bind-result :
    {A B : Type 0} (m : Action A) (f : A → Action B) (db db' : Db) (y : B) (r : Reply A × Db)
    → m db ≡ r
    → (m >>= f) db ≡ (done y, db')
    → (x : A) × (mid : Db) × (m db ≡ (done x, mid)) × (f x mid ≡ (done y, db'))
bind-result m f db db' y (done x, mid) e h =
    let step : (m >>= f) db ≡ f x mid = rw (e, ◌>>=◌, e) refl in (x, mid, e, sym step ∙ h)
bind-result m f db db' y (raised x, mid) e h = absurd (ground (arith, h, e))
bind-result m f db db' y (blocked, mid) e h = absurd (ground (arith, h, e))

-- A call that returns is one that returns, and then the rest.
pub bind-done :
    {A B : Type 0} (m : Action A) (f : A → Action B) (db db' : Db) (y : B)
    → (m >>= f) db ≡ (done y, db')
    → (x : A) × (mid : Db) × (m db ≡ (done x, mid)) × (f x mid ≡ (done y, db'))
bind-done m f db db' y h = bind-result m f db db' y (m db) refl h

-- A question that is answered leaves the database, and what it asked did not throw.
pub asks_ok-done :
    {A : Type 0} (f : FileSystem → Outcome A) (db db' : Db) (x : A)
    → asks_ok f db ≡ (done x, db')
    → (db' ≡ db) × (f db.fs ≡ ok x)
asks_ok-done f db db' x h = elim (outcome-cases (f db.fs)) [
  | inl (y, e) ↦ let same : y ≡ x = ground (arith, h, e) in (ap (λ q. q.1) (sym h), e ∙ ap ok same)
  | inr (y, e) ↦ absurd (ground (arith, h, e))
]
