-- ===== src/Database/Auctions/Semaphore/Gained.antt =====
-- `List` posts the semaphore that it has not waited for; `MyAuctions` and `MyBids` wait first.
use proj_rc.Base.{
  ℕ, suc, ◌-◌, ◌<◌, true, false, ◌≡◌, ◌∙◌, refl, ap, sym, arith, Bool, if◌then◌else◌, Option, some,
  none, List, [], ◌∷◌, Bytes,
}
use proj_rc.Shared.Outcome.{Outcome}
use proj_rc.Database.Clock.{Clock}
use proj_rc.Database.Files.{FileSystem, exists}
use proj_rc.Database.Files.Paths.{FilePath, auctions_dir, hosted_dir, end_file}
use proj_rc.Database.Files.Listing.{iterate, dir_id, file_id}
use proj_rc.Database.Monad.{
  Action, Db, Reply, done, raised, blocked, pure, lift, asks_ok, changes_ok, ◌>>=◌, semaphore_wait,
  wait_then, semaphore_post, post_return, post_throw,
}
use proj_rc.Database.Auctions.Infos.{StartInfo, get_start}
use proj_rc.Database.Auctions.Files.{EndCreation, create_end_file}
use proj_rc.Database.Auctions.Close.{close, close_by_file, has_expired}
use proj_rc.Database.Auctions.Sort.{sort_by}
use proj_rc.Database.Auctions.Listings.{
  AuctionList, aid_key, list_expired, list_started, list_one, list_from, list_all, list_dir,
  list_auctions, my_auctions,
}

-- A call that returns leaves the semaphore at `n`.
abbrev pub Ends : {A : Type 0} → ℕ → Reply A × Db → Type 0
Ends {A} n r = (x : A) → r.0 ≡ done x → r.1.sem ≡ n

bind-Ends :
    {A B : Type 0} {n k : ℕ} (m : Action A) (f : A → Action B) (db : Db) (r : Reply A × Db)
    → m db ≡ r
    → Ends n r
    → ((x : A) (at : Db) → at.sem ≡ n → Ends k (f x at))
    → Ends k ((m >>= f) db)
bind-Ends m f db (done x, at) e h next = rw (e, ◌>>=◌, e) (next x at (h x refl))
bind-Ends m f db (raised x, at) e h next = rw (e, ◌>>=◌, e) (λ y g. cc)
bind-Ends m f db (blocked, at) e h next = rw (e, ◌>>=◌, e) (λ y g. cc)

if-Ends :
    {A : Type 0} {n : ℕ} (b : Bool) (m k : Action A) (db : Db)
    → Ends n (m db)
    → Ends n (k db)
    → Ends n ((if b then m else k) db)
if-Ends true m k db p q = p
if-Ends false m k db p q = q

close_by_file-Ends : (c : EndCreation) (db : Db) → Ends db.sem (close_by_file c db)
unfolding close_by_file
close_by_file-Ends EndCreation.created db x g = refl
close_by_file-Ends EndCreation.failed db x g = refl
close_by_file-Ends EndCreation.existed db x g = refl

changes_ok-Ends :
    {A : Type 0} (f : FileSystem → Outcome (A × FileSystem)) (db : Db)
    → Ends db.sem (changes_ok f db)
changes_ok-Ends f db x g = ground (arith, g)

close-Ends : (clock : Clock) (a_id : Bytes) (db : Db) → Ends db.sem (close clock a_id db)
unfolding close
close-Ends clock a_id db =
    bind-Ends (changes_ok (create_end_file clock a_id)) close_by_file db _ refl
      (changes_ok-Ends (create_end_file clock a_id) db)
      λ c at e y g. close_by_file-Ends c at y g ∙ e

list_expired-Ends :
    (clock : Clock) (aid : Bytes) (b : Bool) (db : Db) → Ends db.sem (list_expired clock aid b db)
unfolding list_expired
list_expired-Ends clock aid true db =
    bind-Ends (close clock aid) (λ res. pure (record { a_id = aid; active = false })) db _ refl
      (close-Ends clock aid db) λ x at e y g. e
list_expired-Ends clock aid false db = λ x g. refl

list_started-Ends :
    (clock : Clock) (aid : Bytes) (s : Option StartInfo) (db : Db)
    → Ends db.sem (list_started clock aid s db)
unfolding list_started post_throw
list_started-Ends clock aid none db = λ x g. cc
list_started-Ends clock aid (some s) db =
    bind-Ends (lift (has_expired clock s)) (list_expired clock aid) db _ refl (λ x e. refl)
      λ b at e y g. list_expired-Ends clock aid b at y g ∙ e

list_one-Ends : (clock : Clock) (aid : Bytes) (db : Db) → Ends db.sem (list_one clock aid db)
unfolding list_one
list_one-Ends clock aid db =
    if-Ends (exists (end_file aid) db.fs) _ _ db (λ x g. refl)
      (bind-Ends (asks_ok (get_start aid)) (list_started clock aid) db _ refl (λ x g. refl)
        λ s at e y g. list_started-Ends clock aid s at y g ∙ e)

list_from-Ends :
    (clock : Clock) (id_of : FilePath → Bytes) (ps : List FilePath) (db : Db)
    → Ends db.sem (list_from clock id_of ps db)
unfolding list_from
list_from-Ends clock id_of [] db = λ x g. refl
list_from-Ends clock id_of (p ∷ ps) db =
    bind-Ends (list_one clock (id_of p)) (λ a. list_from clock id_of ps >>= λ more. pure (a ∷ more))
      db _ refl (list_one-Ends clock (id_of p) db)
      λ a at e.
        bind-Ends (list_from clock id_of ps) (λ more. pure (a ∷ more)) at _ refl
          (λ y g. list_from-Ends clock id_of ps at y g ∙ e) λ x later f y g. f

list_all-Ends :
    (clock : Clock) (id_of : FilePath → Bytes) (ps : List FilePath) (db : Db)
    → Ends (suc db.sem) (list_all clock id_of ps db)
unfolding list_all post_return semaphore_post
list_all-Ends clock id_of [] db = λ x g. refl
list_all-Ends clock id_of (p ∷ ps) db =
    bind-Ends (list_from clock id_of (p ∷ ps))
      (λ r. lift (sort_by aid_key r) >>= λ sorted. post_return sorted) db _ refl
      (list_from-Ends clock id_of (p ∷ ps) db)
      λ r at e.
        bind-Ends (lift (sort_by aid_key r)) (λ sorted. post_return sorted) at _ refl (λ x g. e)
          λ x later f y g. ap suc f

list_dir-Ends :
    (clock : Clock) (d : FilePath) (id_of : FilePath → Bytes) (db : Db)
    → Ends (suc db.sem) (list_dir clock d id_of db)
unfolding list_dir
list_dir-Ends clock d id_of db =
    bind-Ends (asks_ok (iterate d)) (list_all clock id_of) db _ refl (λ x g. refl)
      λ ps at e y g. list_all-Ends clock id_of ps at y g ∙ ap suc e

-- When `list_auctions`, from a semaphore at 1, returns, the semaphore is at 2, and two
-- processes that wait one after the other both go on: the operations no longer exclude each
-- other.
pub list_auctions-two_inside :
    (clock : Clock) (db db' : Db) (auctions : AuctionList)
    → db.sem ≡ 1
    → list_auctions clock db ≡ (done auctions, db')
    → (db'.sem ≡ 2)
      × ((semaphore_wait db').0 ≡ done tt)
      × ((semaphore_wait (semaphore_wait db').1).0 ≡ done tt)
unfolding list_auctions semaphore_wait
list_auctions-two_inside clock db db' auctions one h =
    let two : db'.sem ≡ 2 =
      ap (λ q. q.1.sem) (sym h)
      ∙ (list_dir-Ends clock auctions_dir dir_id db auctions (ap (λ q. q.0) h) ∙ ap suc one) in
    (two, ground (arith, two), ground (arith, two))

-- When `my_auctions`, with the semaphore free, returns, the semaphore has the value that it
-- had before.
pub my_auctions-Ends :
    (clock : Clock) (user_id : Bytes) (db : Db)
    → 0 < db.sem
    → Ends db.sem (my_auctions clock user_id db)
unfolding my_auctions
my_auctions-Ends clock user_id db free =
    let at = record db { sem = db.sem - 1 } in
    rw (wait_then (list_dir clock (hosted_dir user_id) file_id) db free)
      (λ x g. list_dir-Ends clock (hosted_dir user_id) file_id at x g ∙ omega arith)
