-- ===== src/Database/Auctions/Listings/Laws.antt =====
-- Which auctions a listing shows, and in which order.
use proj_rc.Base.{
  true, false, not, ◌≡◌, ◌∙◌, sym, refl, ap, subst, suc, arith, inl, inr, Bool, Bool-cases, some,
  none, List, [], ◌∷◌, map, Bytes,
}
use mathlib.Core.Path.{ap₂}
use mathlib.Core.List.{Perm}
use mathlib.Core.List.Perm
use proj_rc.Shared.Outcome.{ok, outcome-cases}
use proj_rc.Database.Clock.{Clock}
use proj_rc.Database.Files.{FileSystem, exists}
use proj_rc.Database.Files.Paths.{FilePath, end_file}
use proj_rc.Database.Files.Listing.{iterate}
use proj_rc.Database.Monad.{
  Db, done, pure, lift, asks_ok, ◌>>=◌, post_return, post_throw, semaphore_post,
}
use proj_rc.Database.Monad.Runs.{bind-done, asks_ok-done, done-injective}
use proj_rc.Database.Auctions.Infos.{StartInfo, get_start}
use proj_rc.Database.Auctions.Close.{close, has_expired}
use proj_rc.Database.Auctions.Sort.{sort_by}
use proj_rc.Database.Auctions.Sort.Laws.{IsSorted, sort_by-IsSorted}
use proj_rc.Database.Auctions.Listings.{
  AuctionListing, AuctionList, aid_key, list_expired, list_started, list_one, list_from, list_all,
  list_dir,
}

-- The entry of an auction that is in the tree `fs` when its turn comes.
pub record IsListed (clock : Clock) (aid : Bytes) (fs : FileSystem) (a : AuctionListing)
    : Type 0 where
  pub named : a.a_id ≡ aid
  pub ended : exists (end_file aid) fs ≡ true → a.active ≡ false
  pub running :
      exists (end_file aid) fs ≡ false
      → (start : StartInfo) × (expired : Bool) × (get_start aid fs ≡ ok (some start))
        × (has_expired clock start ≡ ok expired)
        × (a.active ≡ not expired)

list_expired-active :
    (clock : Clock) (aid : Bytes) (b : Bool) (db db' : Db) (a : AuctionListing)
    → list_expired clock aid b db ≡ (done a, db')
    → (a.a_id ≡ aid) × (a.active ≡ not b)
unfolding list_expired
list_expired-active clock aid true db db' a h =
    let (r, mid, first, last) =
      bind-done (close clock aid) (λ res. pure (record { a_id = aid; active = false })) db db' a
        h in
    let same = done-injective {db = mid} last in
    (ap (λ q. q.a_id) (sym same), ap (λ q. q.active) (sym same))
list_expired-active clock aid false db db' a h =
    let same = done-injective {db = db} h in
    (ap (λ q. q.a_id) (sym same), ap (λ q. q.active) (sym same))

-- When the listing of one auction returns, its entry has the id asked for; with an END file
-- the entry is not active; without one a START file was read, and the entry is active exactly
-- when its time was not over.
pub list_one-IsListed :
    (clock : Clock) (aid : Bytes) (db db' : Db) (a : AuctionListing)
    → list_one clock aid db ≡ (done a, db')
    → IsListed clock aid db.fs a
unfolding list_one list_started post_throw semaphore_post
list_one-IsListed clock aid db db' a h = elim (Bool-cases (exists (end_file aid) db.fs)) [
  | inl e ↦
      let same : record { a_id = aid; active = false } ≡ a = ground (arith, h, e) in
      record {
        named = ap (λ q. q.a_id) (sym same);
        ended = λ f. ap (λ q. q.active) (sym same);
        running = λ f. absurd (ground (arith, e, f));
      }
  | inr e ↦ elim (outcome-cases (get_start aid db.fs)) [
    | inr (x, f) ↦ absurd (ground (arith, h, e, f))
    | inl (none, f) ↦ absurd (ground (arith, h, e, f))
    | inl (some start, f) ↦ elim (outcome-cases (has_expired clock start)) [
      | inr (x, g) ↦ absurd (ground (arith, h, e, f, g))
      | inl (expired, g) ↦
          let run : list_expired clock aid expired db ≡ (done a, db') =
            ground (arith, h, e, f, g) in
          let (named, active) = list_expired-active clock aid expired db db' a run in
          record {
            named = named;
            ended = λ k. absurd (ground (arith, e, k));
            running = λ k. (start, expired, f, g, active);
          }
    ]
  ]
]

abbrev pub a_ids : AuctionList → List Bytes
a_ids auctions = map (λ a. a.a_id) auctions

list_from-ids :
    (clock : Clock) (id_of : FilePath → Bytes) (ps : List FilePath) (db db' : Db) (r : AuctionList)
    → list_from clock id_of ps db ≡ (done r, db')
    → a_ids r ≡ map id_of ps
unfolding list_from
list_from-ids clock id_of [] db db' r h = ap a_ids (sym (done-injective {db = db} h))
list_from-ids clock id_of (p ∷ ps) db db' r h =
    let (a, mid, one, rest) =
      bind-done (list_one clock (id_of p))
        (λ a. list_from clock id_of ps >>= λ more. pure (a ∷ more)) db db' r h in
    let (more, later, listed, whole) =
      bind-done (list_from clock id_of ps) (λ more. pure (a ∷ more)) mid db' r rest in
    let named = (list_one-IsListed clock (id_of p) db mid a one).named in
    ap a_ids (sym (done-injective {db = later} whole))
    ∙ ap₂ (λ x xs. x ∷ xs) named (list_from-ids clock id_of ps mid later more listed)

list_all-IsSorted :
    (clock : Clock) (id_of : FilePath → Bytes) (ps : List FilePath) (db db' : Db)
    (auctions : AuctionList)
    → list_all clock id_of ps db ≡ (done auctions, db')
    → (met : AuctionList) × (a_ids met ≡ map id_of ps)
      × Perm auctions met
      × IsSorted aid_key auctions
unfolding list_all post_return semaphore_post
list_all-IsSorted clock id_of [] db db' auctions h =
    let none_met : [] ≡ auctions = done-injective {db = record db { sem = suc db.sem }} h in
    let (perm, order) = subst (λ q. Perm q [] × IsSorted aid_key q) none_met (Perm.refl [], tt) in
    ([], refl, perm, order)
list_all-IsSorted clock id_of (p ∷ ps) db db' auctions h =
    let (met, mid, listed, rest) =
      bind-done (list_from clock id_of (p ∷ ps))
        (λ r. lift (sort_by aid_key r) >>= λ sorted. post_return sorted) db db' auctions h in
    let (sorted, later, ordered, posted) =
      bind-done (lift (sort_by aid_key met)) (λ sorted. post_return sorted) mid db' auctions rest in
    let same : sorted ≡ auctions =
      done-injective {db = record later { sem = suc later.sem }} posted in
    let (order, perm) =
      sort_by-IsSorted aid_key met sorted
        (asks_ok-done (λ fs. sort_by aid_key met) mid later sorted ordered).1 in
    (
      met,
      list_from-ids clock id_of (p ∷ ps) db mid met listed,
      subst (λ q. Perm q met) same perm,
      subst (IsSorted aid_key) same order,
    )

-- When the listing of a directory returns, its entries are those of the ids that the directory
-- names, each as often as it is named, in the order of their numbers.
pub list_dir-IsSorted :
    (clock : Clock) (d : FilePath) (id_of : FilePath → Bytes) (db db' : Db) (auctions : AuctionList)
    → list_dir clock d id_of db ≡ (done auctions, db')
    → (ps : List FilePath) × (met : AuctionList) × (iterate d db.fs ≡ ok ps)
      × (a_ids met ≡ map id_of ps)
      × Perm auctions met
      × IsSorted aid_key auctions
unfolding list_dir
list_dir-IsSorted clock d id_of db db' auctions h =
    let (ps, mid, asked, listed) =
      bind-done (asks_ok (iterate d)) (list_all clock id_of) db db' auctions h in
    let (met, ids, perm, order) = list_all-IsSorted clock id_of ps mid db' auctions listed in
    (ps, met, (asks_ok-done (iterate d) db mid ps asked).1, ids, perm, order)
