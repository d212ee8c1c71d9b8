-- ===== src/Database/Auctions/Listings.antt =====
-- `MyAuctions`, `MyBids` and `List` (database.cpp).
pub mod Laws
pub mod Keeps
use proj_rc.Base.{
  ℕ, Bool, true, false, not, Option, none, some, List, [], ◌∷◌, if◌then◌else◌, ltb, leb, Bytes,
}
use proj_rc.Shared.Outcome.{Outcome, auction_not_found}
use proj_rc.Shared.Outcome
use proj_rc.Shared.Decimal.{stoi, to_u32}
use proj_rc.Database.Clock.{Clock}
use proj_rc.Database.Files.{FileSystem, exists}
use proj_rc.Database.Files.Paths.{FilePath, auctions_dir, hosted_dir, bidded_dir, end_file}
use proj_rc.Database.Files.Listing.{iterate, dir_id, file_id}
use proj_rc.Database.Monad.{
  Action, Db, Reply, done, pure, lift, asks, asks_ok, ◌>>=◌, ◌>>◌, semaphore_wait, post_return,
  post_throw,
}
use proj_rc.Database.Auctions.Infos.{StartInfo, get_start}
use proj_rc.Database.Auctions.Close.{close, has_expired}
use proj_rc.Database.Auctions.Sort.{sort_by}

pub record AuctionListing : Type 0 where
  pub a_id : Bytes
  pub active : Bool

abbrev pub AuctionList : Type 0
AuctionList = List AuctionListing

-- CompareByAid looks at this number of an auction.
unfoldable pub aid_key : AuctionListing → Outcome ℕ
aid_key a = Outcome.◌>>=◌ (stoi a.a_id) λ z. Outcome.ok (to_u32 z)

unfoldable pub list_expired : Clock → Bytes → Bool → Action AuctionListing
unfolding close
list_expired clock aid true =
    close clock aid >>= λ res. pure (record { a_id = aid; active = false })
list_expired clock aid false = pure (record { a_id = aid; active = true })

unfoldable pub list_started : Clock → Bytes → Option StartInfo → Action AuctionListing
unfolding post_throw list_expired
list_started clock aid none = post_throw auction_not_found
list_started clock aid (some start) = lift (has_expired clock start) >>= list_expired clock aid

-- One round of the loop over a directory. An auction whose time is over is closed on the way.
unfoldable pub list_one : Clock → Bytes → Action AuctionListing
unfolding list_started
list_one clock aid = do
  ended ← asks (exists (end_file aid))
  if ended
      then pure (record { a_id = aid; active = false })
      else do start ← asks_ok (get_start aid); list_started clock aid start

unfoldable pub list_from : Clock → (FilePath → Bytes) → List FilePath → Action AuctionList
list_from clock id_of [] = pure []
list_from clock id_of (p ∷ ps) = do
  auction ← list_one clock (id_of p)
  more ← list_from clock id_of ps
  pure (auction ∷ more)

unfoldable pub list_all : Clock → (FilePath → Bytes) → List FilePath → Action AuctionList
unfolding post_return list_from
list_all clock id_of [] = post_return []
list_all clock id_of (p ∷ ps) = do
  result ← list_from clock id_of (p ∷ ps)
  sorted ← lift (sort_by aid_key result)
  post_return sorted

-- What runs behind the wait, for the directory `d`.
unfoldable pub list_dir : Clock → FilePath → (FilePath → Bytes) → Action AuctionList
unfolding list_all
list_dir clock d id_of = do ps ← asks_ok (iterate d); list_all clock id_of ps

unfoldable pub my_auctions : Clock → Bytes → Action AuctionList
my_auctions clock user_id = semaphore_wait >> list_dir clock (hosted_dir user_id) file_id

unfoldable pub my_bids : Clock → Bytes → Action AuctionList
my_bids clock user_id = semaphore_wait >> list_dir clock (bidded_dir user_id) file_id

-- `List` posts the semaphore at its end, and never waits for it.
unfoldable pub list_auctions : Clock → Action AuctionList
unfolding list_dir
list_auctions clock = list_dir clock auctions_dir dir_id
