-- ===== src/Database/Auctions/Record/Laws.antt =====
-- The bids and the state that a record shows.
use proj_rc.Base.{
  ℕ, zero, suc, ◌-◌, ◌≤◌, ◌<◌, true, false, ◌≡◌, ◌∙◌, sym, refl, ap, arith, ◌⊎◌, inl, inr, Bool,
  not, ◌||◌, Bool-cases, Option, some, none, List, [], ◌∷◌, ◌++◌, ltb, length, take, drop, Bytes,
}
use mathlib.Core.List.{Perm}
use proj_rc.Shared.Outcome.{ok, outcome-cases}
use proj_rc.Database.Clock.{Clock}
use proj_rc.Database.Files.{FileSystem, exists}
use proj_rc.Database.Files.Paths.{FilePath, bids_dir, end_file}
use proj_rc.Database.Files.Listing.{iterate}
use proj_rc.Database.Monad.Runs.{bind-done, asks_ok-done, done-injective}
use proj_rc.Database.Monad.{
  Db, asks_ok, pure, ◌>>=◌, done, wait_then, post_return, post_throw, semaphore_post,
}
use proj_rc.Database.Auctions.Infos.{StartInfo, EndInfo, BidInfo, get_start, get_end}
use proj_rc.Database.Auctions.Close.{close, has_expired}
use proj_rc.Database.Auctions.Sort.{sort_by}
use proj_rc.Database.Auctions.Sort.Laws.{IsSorted, sort_by-IsSorted}
use proj_rc.Database.Auctions.Record.{
  Stack, AuctionRecord, end_after, value_key, bids_from, last_fifty, no_bid, list_bids, read_end,
  end_if_expired, end_of_auction, record_of, record_started, show_record_locked, show_record,
}

module _ {A : Type 0} where
  take-drop : (n : ℕ) (xs : List A) → take n xs ++ drop n xs ≡ xs
  take-drop zero xs = refl
  take-drop (suc n) [] = refl
  take-drop (suc n) (x ∷ xs) = ap (λ ys. x ∷ ys) (take-drop n xs)

  length-drop : (n : ℕ) (xs : List A) → length (drop n xs) ≡ length xs - n
  length-drop zero xs = omega arith
  length-drop (suc n) [] = omega arith
  length-drop (suc n) (x ∷ xs) = length-drop n xs ∙ omega arith

-- The bids are the last 50 of all, and `older` are the others.
pub record IsLast (all : List BidInfo) (bs : List BidInfo) : Type 0 where
  pub older : List BidInfo
  pub sorted : IsSorted value_key (older ++ bs)
  pub same : Perm (older ++ bs) all
  pub bounded : length bs ≤ 50
  pub complete : older ≡ [] ⊎ (length bs ≡ 50)

last_fifty-split :
    (bs : List BidInfo)
    → (older : List BidInfo) × (older ++ last_fifty bs ≡ bs)
      × (length (last_fifty bs) ≤ 50)
      × ((older ≡ []) ⊎ (length (last_fifty bs) ≡ 50))
unfolding last_fifty
last_fifty-split bs = elim (Bool-cases (ltb 50 (length bs))) [
  | inl e ↦
      let many : 50 < length bs = ground (arith, e) in
      let fifty : length (drop (length bs - 50) bs) ≡ 50 =
        length-drop (length bs - 50) bs ∙ omega (arith, many) in
      rw e
        (take (length bs - 50) bs, take-drop (length bs - 50) bs, omega (arith, fifty), inr fifty)
  | inr e ↦ let few : length bs ≤ 50 = ground (arith, e) in rw e ([], refl, few, inl refl)
]

-- When the bids of a record are found, they are at most 50, and they are the end of a list
-- that holds all the bids read from BIDS, sorted by value; where bids are left out, they are
-- exactly 50.
pub list_bids-IsLast :
    (stack : Stack) (a_id : Bytes) (fs : FileSystem) (bs : List BidInfo)
    → list_bids stack a_id fs ≡ ok bs
    → (ps : List FilePath) × (all : List BidInfo) × (iterate (bids_dir a_id) fs ≡ ok ps)
      × (bids_from (no_bid stack) ps fs ≡ ok all)
      × IsLast all bs
unfolding list_bids
list_bids-IsLast stack a_id fs bs h = elim (outcome-cases (iterate (bids_dir a_id) fs)) [
  | inr (x, e) ↦ absurd (ground (arith, h, e))
  | inl (ps, e) ↦ elim (outcome-cases (bids_from (no_bid stack) ps fs)) [
    | inr (x, f) ↦ absurd (ground (arith, h, e, f))
    | inl (all, f) ↦ elim (outcome-cases (sort_by value_key all)) [
      | inr (x, g) ↦ absurd (ground (arith, h, e, f, g))
      | inl (sorted, g) ↦
          let made : last_fifty sorted ≡ bs = ground (arith, h, e, f, g) in
          let (older, split, few, whole) = last_fifty-split sorted in
          let (ordered, perm) = sort_by-IsSorted value_key all sorted g in
          (
            ps,
            all,
            e,
            f,
            rw (sym made) (record {
              older = older;
              sorted = rw split ordered;
              same = rw split perm;
              bounded = few;
              complete = whole;
            }),
          )
    ]
  ]
]

abbrev is_none : Option EndInfo → Bool
is_none none = true
is_none (some e) = false

read_end-ends :
    (stack : Stack) (a_id : Bytes) (db db' : Db) (o : Option EndInfo)
    → read_end stack a_id db ≡ (done o, db')
    → is_none o ≡ false
unfolding read_end
read_end-ends stack a_id db db' o h =
    let (e, mid, first, last) =
      bind-done (asks_ok (get_end (end_file a_id))) (λ e. pure (some (end_after stack e))) db db' o
        h in
    ap is_none (sym (done-injective last))

end_if_expired-ends :
    (clock : Clock) (stack : Stack) (a_id : Bytes) (b : Bool) (db db' : Db) (o : Option EndInfo)
    → end_if_expired clock stack a_id b db ≡ (done o, db')
    → is_none o ≡ not b
unfolding end_if_expired
end_if_expired-ends clock stack a_id true db db' o h =
    let (e, mid, first, last) =
      bind-done (close clock a_id) (λ res. read_end stack a_id) db db' o h in
    read_end-ends stack a_id mid db' o last
end_if_expired-ends clock stack a_id false db db' o h = ap is_none (sym (done-injective h))

end_of_auction-ends :
    (clock : Clock) (stack : Stack) (a_id : Bytes) (start : StartInfo) (db db' : Db)
    (o : Option EndInfo)
    → end_of_auction clock stack a_id start db ≡ (done o, db')
    → (expired : Bool) × (has_expired clock start ≡ ok expired)
      × (is_none o ≡ not (exists (end_file a_id) db.fs || expired))
unfolding end_of_auction
end_of_auction-ends clock stack a_id start db db' o h =
    elim (outcome-cases (has_expired clock start)) [
      | inr (x, e) ↦ absurd (ground (arith, h, e))
      | inl (expired, e) ↦ elim (Bool-cases (exists (end_file a_id) db.fs)) [
        | inl f ↦
            let run : read_end stack a_id db ≡ (done o, db') = ground (arith, h, e, f) in
            (expired, e, rw f (read_end-ends stack a_id db db' o run))
        | inr f ↦
            let run : end_if_expired clock stack a_id expired db ≡ (done o, db') =
              ground (arith, h, e, f) in
            (expired, e, rw f (end_if_expired-ends clock stack a_id expired db db' o run))
      ]
    ]

-- What a record shows of the auction `a_id` in the tree `fs`; the bids are those of `fs'`, in which
-- the auction has been closed if its time was over.
pub record IsShown (clock : Clock) (stack : Stack) (a_id : Bytes) (fs fs' : FileSystem)
    (r : AuctionRecord) : Type 0 where
  pub start : StartInfo
  pub expired : Bool
  pub started : get_start a_id fs ≡ ok (some start)
  pub timed : has_expired clock start ≡ ok expired
  pub activity : r.active ≡ not (exists (end_file a_id) fs || expired)
  pub host : r.host_id ≡ start.user_id
  pub named : r.auction_name ≡ start.name
  pub valued : r.start_value ≡ start.start_value
  pub bids : list_bids stack a_id fs' ≡ ok r.list

record_of-active :
    (stack : Stack) (start : StartInfo) (o : Option EndInfo) (bs : List BidInfo)
    → ((record_of stack start o bs).active ≡ is_none o)
      × ((record_of stack start o bs).host_id ≡ start.user_id)
      × ((record_of stack start o bs).auction_name ≡ start.name)
      × ((record_of stack start o bs).start_value ≡ start.start_value)
      × ((record_of stack start o bs).list ≡ bs)
unfolding record_of
record_of-active stack start none bs = (refl, refl, refl, refl, refl)
record_of-active stack start (some e) bs = (refl, refl, refl, refl, refl)

show_record_locked-IsShown :
    (clock : Clock) (stack : Stack) (a_id : Bytes) (db db' : Db) (r : AuctionRecord)
    → show_record_locked clock stack a_id db ≡ (done r, db')
    → IsShown clock stack a_id db.fs db'.fs r
unfolding show_record_locked record_started post_throw post_return semaphore_post
show_record_locked-IsShown clock stack a_id db db' r h =
    elim (outcome-cases (get_start a_id db.fs)) [
      | inr (x, e) ↦ absurd (ground (arith, h, e))
      | inl (none, e) ↦ absurd (ground (arith, h, e))
      | inl (some start, e) ↦
          let run : record_started clock stack a_id (some start) db ≡ (done r, db') =
            ground (arith, h, e) in
          let (o, mid, ended, listed) =
            bind-done (end_of_auction clock stack a_id start)
              (λ o.
                asks_ok (list_bids stack a_id) >>= λ bs. post_return (record_of stack start o bs))
              db db' r run in
          let (bs, later, got, posted) =
            bind-done (asks_ok (list_bids stack a_id))
              (λ bs. post_return (record_of stack start o bs)) mid db' r listed in
          let (expired, timed, activity) =
            end_of_auction-ends clock stack a_id start db mid o ended in
          let made : record_of stack start o bs ≡ r = done-injective posted in
          let (active, host, named, valued, list) = record_of-active stack start o bs in
          let (same, asked) = asks_ok-done (list_bids stack a_id) mid later bs got in
          let bids : list_bids stack a_id db'.fs ≡ ok bs =
            ap (list_bids stack a_id) (ap (λ q. q.1.fs) (sym posted) ∙ ap (λ q. q.fs) same)
            ∙ asked in
          rw (sym made) (record {
            start = start;
            expired = expired;
            started = e;
            timed = timed;
            activity = active ∙ activity;
            host = host;
            named = named;
            valued = valued;
            bids = bids ∙ ap ok (sym list);
          })
    ]

-- When `show_record`, with the semaphore free, returns a record, it has the host, the name and
-- the start value of the START file, it is active exactly when there was no END file and the
-- time was not over, and its bids are those of the tree after the call.
pub show_record-IsShown :
    (clock : Clock) (stack : Stack) (a_id : Bytes) (db db' : Db) (r : AuctionRecord)
    → 0 < db.sem
    → show_record clock stack a_id db ≡ (done r, db')
    → IsShown clock stack a_id db.fs db'.fs r
unfolding show_record
show_record-IsShown clock stack a_id db db' r free h =
    show_record_locked-IsShown clock stack a_id (record db { sem = db.sem - 1 }) db' r
      (sym (wait_then (show_record_locked clock stack a_id) db free) ∙ h)
