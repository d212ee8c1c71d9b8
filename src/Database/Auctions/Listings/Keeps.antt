-- ===== src/Database/Auctions/Listings/Keeps.antt =====
-- A listing changes no file that is there.
use proj_rc.Base.{
  true, false, ◌≡◌, ◌∙◌, sym, refl, ap, subst, arith, inl, inr, Bool, Bool-cases, Option, some,
  none, if◌then◌else◌, List, [], ◌∷◌, Bytes,
}
use proj_rc.Shared.Outcome.{Outcome, ok, outcome-cases}
use proj_rc.Shared.Decimal.{stol_u32}
use proj_rc.Database.Clock.{Clock}
use proj_rc.Database.Files.{FileSystem, exists, read_file, write_file, regular}
use proj_rc.Database.Files.Laws.{find-put}
use proj_rc.Database.Files.Paths.{FilePath, path_eq→eq, end_file}
use proj_rc.Database.Files.Listing.{iterate}
use proj_rc.Database.Monad.{
  Action, Db, Reply, done, blocked, pure, lift, asks_ok, changes_ok, ◌>>=◌, post_return, post_throw,
  semaphore_post,
}
use proj_rc.Database.Auctions.Infos.{StartInfo, get_start}
use proj_rc.Database.Auctions.Files.{EndCreation, create_end_file, end_from, end_written, end_text}
use proj_rc.Database.Auctions.Words.{c_str}
use proj_rc.Shared.Verifications.{verify_auction_id}
use proj_rc.Database.Auctions.Close.{close, close_by_file, has_expired}
use proj_rc.Database.Auctions.Sort.{sort_by}
use proj_rc.Database.Auctions.Listings.{
  aid_key, list_expired, list_started, list_one, list_from, list_all, list_dir,
}

-- Every file of the tree `fs` has the same content in `fs'`.
abbrev pub Keeps : FileSystem → FileSystem → Type 0
Keeps fs fs' = (p : FilePath) (c : Bytes) → read_file p fs ≡ some c → read_file p fs' ≡ some c

Keeps-trans : (a b c : FileSystem) → Keeps a b → Keeps b c → Keeps a c
Keeps-trans a b c h k p s e = k p s (h p s e)

-- A file that is not there yet is made beside the others.
write_file-Keeps :
    (q : FilePath) (s : Bytes) (fs : FileSystem)
    → exists q fs ≡ false
    → Keeps fs (write_file q s fs).1
unfolding write_file
write_file-Keeps q s fs new p c e =
    ground (arith, new, e, find-put p q (regular s) fs.entries, path_eq→eq q p)

end_written-left : (r : Bool × FileSystem) → (end_written r).1 ≡ r.1
unfolding end_written
end_written-left (true, fs) = refl
end_written-left (false, fs) = refl

end_from-Keeps :
    (clock : Clock) (a_id : Bytes) (fs fs' : FileSystem) (r : EndCreation) (s : Option StartInfo)
    → end_from clock a_id fs s ≡ ok (r, fs')
    → Keeps fs fs'
unfolding end_from
end_from-Keeps clock a_id fs fs' r none h = absurd cc
end_from-Keeps clock a_id fs fs' r (some start) h =
    elim (outcome-cases (stol_u32 start.timeactive)) [
      | inr (x, e) ↦ absurd (ground (arith, h, e))
      | inl (n, e) ↦ elim (Bool-cases (exists (end_file a_id) fs)) [
        | inl f ↦
            let same : fs ≡ fs' = ground (arith, h, e, f) in subst (Keeps fs) same (λ p c g. g)
        | inr f ↦
            let w = write_file (end_file a_id) (c_str (end_text clock start n)) fs in
            let made : end_written w ≡ (r, fs') = ground (arith, h, e, f) in
            let same : w.1 ≡ fs' = sym (end_written-left w) ∙ ap (λ q. q.1) made in
            subst (Keeps fs) same (write_file-Keeps (end_file a_id) _ fs f)
      ]
    ]

create_end_file-Keeps :
    (clock : Clock) (a_id : Bytes) (fs fs' : FileSystem) (r : EndCreation)
    → create_end_file clock a_id fs ≡ ok (r, fs')
    → Keeps fs fs'
unfolding create_end_file
create_end_file-Keeps clock a_id fs fs' r h = elim (Bool-cases (verify_auction_id a_id)) [
  | inr v ↦ let same : fs ≡ fs' = ground (arith, h, v) in subst (Keeps fs) same (λ p c g. g)
  | inl v ↦ elim (outcome-cases (get_start a_id fs)) [
    | inr (x, e) ↦ absurd (ground (arith, h, v, e))
    | inl (s, e) ↦ end_from-Keeps clock a_id fs fs' r s (ground (arith, h, v, e))
  ]
]

bind-Keeps :
    {A B : Type 0} (m : Action A) (f : A → Action B) (db : Db) (r : Reply A × Db)
    → m db ≡ r
    → Keeps db.fs r.1.fs
    → ((x : A) (at : Db) → Keeps at.fs (f x at).1.fs)
    → Keeps db.fs ((m >>= f) db).1.fs
bind-Keeps m f db (done x, at) e h next =
    rw (e, ◌>>=◌, e) (Keeps-trans db.fs at.fs (f x at).1.fs h (next x at))
bind-Keeps m f db (Reply.raised x, at) e h next = rw (e, ◌>>=◌, e) h
bind-Keeps m f db (blocked, at) e h next = rw (e, ◌>>=◌, e) h

if-Keeps :
    {A : Type 0} (b : Bool) (m k : Action A) (db : Db)
    → Keeps db.fs (m db).1.fs
    → Keeps db.fs (k db).1.fs
    → Keeps db.fs ((if b then m else k) db).1.fs
if-Keeps true m k db p q = p
if-Keeps false m k db p q = q

changes_ok-Keeps :
    {A : Type 0} (f : FileSystem → Outcome (A × FileSystem)) (db : Db)
    → ((r : A) (fs' : FileSystem) → f db.fs ≡ ok (r, fs') → Keeps db.fs fs')
    → Keeps db.fs (changes_ok f db).1.fs
changes_ok-Keeps f db h p c g = elim (outcome-cases (f db.fs)) [
  | inr (x, e) ↦ ground (arith, e, g)
  | inl ((r, fs'), e) ↦ ground (arith, e, h r fs' e p c g)
]

close_by_file-Keeps : (r : EndCreation) (db : Db) → Keeps db.fs (close_by_file r db).1.fs
unfolding close_by_file
close_by_file-Keeps EndCreation.created db = λ p c e. e
close_by_file-Keeps EndCreation.failed db = λ p c e. e
close_by_file-Keeps EndCreation.existed db = λ p c e. e

close-Keeps : (clock : Clock) (a_id : Bytes) (db : Db) → Keeps db.fs (close clock a_id db).1.fs
unfolding close
close-Keeps clock a_id db =
    bind-Keeps (changes_ok (create_end_file clock a_id)) close_by_file db _ refl
      (changes_ok-Keeps (create_end_file clock a_id) db
        (λ r fs' e. create_end_file-Keeps clock a_id db.fs fs' r e))
      (λ r at. close_by_file-Keeps r at)

list_expired-Keeps :
    (clock : Clock) (aid : Bytes) (b : Bool) (db : Db)
    → Keeps db.fs (list_expired clock aid b db).1.fs
unfolding list_expired
list_expired-Keeps clock aid true db =
    bind-Keeps (close clock aid) (λ res. pure (record { a_id = aid; active = false })) db _ refl
      (close-Keeps clock aid db) λ x at p c e. e
list_expired-Keeps clock aid false db = λ p c e. e

list_started-Keeps :
    (clock : Clock) (aid : Bytes) (s : Option StartInfo) (db : Db)
    → Keeps db.fs (list_started clock aid s db).1.fs
unfolding list_started post_throw semaphore_post
list_started-Keeps clock aid none db = λ p c e. e
list_started-Keeps clock aid (some s) db =
    bind-Keeps (lift (has_expired clock s)) (list_expired clock aid) db _ refl (λ p c e. e)
      (λ b at. list_expired-Keeps clock aid b at)

list_one-Keeps : (clock : Clock) (aid : Bytes) (db : Db) → Keeps db.fs (list_one clock aid db).1.fs
unfolding list_one
list_one-Keeps clock aid db =
    if-Keeps (exists (end_file aid) db.fs) _ _ db (λ p c e. e)
      (bind-Keeps (asks_ok (get_start aid)) (list_started clock aid) db _ refl (λ p c e. e)
        (λ s at. list_started-Keeps clock aid s at))

list_from-Keeps :
    (clock : Clock) (id_of : FilePath → Bytes) (ps : List FilePath) (db : Db)
    → Keeps db.fs (list_from clock id_of ps db).1.fs
unfolding list_from
list_from-Keeps clock id_of [] db = λ p c e. e
list_from-Keeps clock id_of (q ∷ ps) db =
    bind-Keeps (list_one clock (id_of q))
      (λ a. list_from clock id_of ps >>= λ more. pure (a ∷ more)) db _ refl
      (list_one-Keeps clock (id_of q) db)
      λ a at.
        bind-Keeps (list_from clock id_of ps) (λ more. pure (a ∷ more)) at _ refl
          (list_from-Keeps clock id_of ps at) λ more later p c e. e

list_all-Keeps :
    (clock : Clock) (id_of : FilePath → Bytes) (ps : List FilePath) (db : Db)
    → Keeps db.fs (list_all clock id_of ps db).1.fs
unfolding list_all post_return semaphore_post
list_all-Keeps clock id_of [] db = λ p c e. e
list_all-Keeps clock id_of (q ∷ ps) db =
    bind-Keeps (list_from clock id_of (q ∷ ps))
      (λ r. lift (sort_by aid_key r) >>= λ sorted. post_return sorted) db _ refl
      (list_from-Keeps clock id_of (q ∷ ps) db)
      λ r at.
        bind-Keeps (lift (sort_by aid_key r)) (λ sorted. post_return sorted) at _ refl (λ p c e. e)
          λ sorted later p c e. e

-- The listing of a directory, by whatever end, leaves every file that was there with the
-- content that it had: closing an auction on the way overwrites nothing.
pub list_dir-Keeps :
    (clock : Clock) (d : FilePath) (id_of : FilePath → Bytes) (db : Db)
    → Keeps db.fs (list_dir clock d id_of db).1.fs
unfolding list_dir
list_dir-Keeps clock d id_of db =
    bind-Keeps (asks_ok (iterate d)) (list_all clock id_of) db _ refl (λ p c e. e)
      (λ ps at. list_all-Keeps clock id_of ps at)
