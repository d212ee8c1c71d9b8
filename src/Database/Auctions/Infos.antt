-- ===== src/Database/Auctions/Infos.antt =====
-- The files of an auction (database.cpp): the functions that read them.
use proj_rc.Base.{
  ℕ, Bool, true, false, not, Option, none, some, List, [], ◌∷◌, ◌++◌, if◌then◌else◌, Bytes,
  bytes_eq, codes,
}
use proj_rc.Shared.Outcome.{Outcome, ok, ◌>>=◌}
use proj_rc.Shared.Decimal.{stol_u32}
use proj_rc.Shared.Verifications.{verify_auction_id}
use proj_rc.Database.Files.{FileSystem, is_dir, read_file}
use proj_rc.Database.Files.Paths.{FilePath, auction_dir, asset_dir, hosted_dir, start_file}
use proj_rc.Database.Files.Listing.{iterate, file_id}
use proj_rc.Database.Auctions.Words.{line_words}

pub record StartInfo : Type 0 where
  pub user_id : Bytes
  pub name : Bytes
  pub asset_fname : Bytes
  pub start_value : Bytes
  pub timeactive : Bytes
  pub current_date : Bytes
  pub current_time : ℕ

pub record EndInfo : Type 0 where
  pub end_date : Bytes
  pub end_time : ℕ

pub record BidInfo : Type 0 where
  pub user_id : Bytes
  pub value : Bytes
  pub current_date : Bytes
  pub time_passed : ℕ

-- The words of the first line of a file: `none` where there is no file, or no line.
abbrev pub file_words : ℕ → FilePath → FileSystem → Option (List Bytes)
file_words n p fs = elim (read_file p fs) [ none ↦ none | some content ↦ line_words n content ]

unfoldable pub start_of : Option (List Bytes) → Outcome (Option StartInfo)
start_of (some (u ∷ n ∷ f ∷ v ∷ t ∷ d ∷ h ∷ s ∷ [])) = stol_u32 s >>= λ seconds. ok (
    some (record {
      user_id = u;
      name = n;
      asset_fname = f;
      start_value = v;
      timeactive = t;
      current_date = d ++ (codes " " ++ h);
      current_time = seconds;
    }))
start_of _ = ok none

-- `ok none`: -1.
unfoldable pub get_start : Bytes → FileSystem → Outcome (Option StartInfo)
unfolding start_of
get_start a_id fs = start_of (file_words 200 (start_file a_id) fs)

unfoldable pub end_of : Option (List Bytes) → Outcome (Option EndInfo)
end_of (some (d ∷ h ∷ s ∷ [])) = stol_u32 s >>= λ seconds.
    ok (some (record { end_date = d ++ (codes " " ++ h); end_time = seconds }))
end_of _ = ok none

unfoldable pub get_end : FilePath → FileSystem → Outcome (Option EndInfo)
unfolding end_of
get_end p fs = end_of (file_words 200 p fs)

unfoldable pub bid_of : Option (List Bytes) → Outcome (Option BidInfo)
bid_of (some (u ∷ v ∷ d ∷ h ∷ s ∷ [])) = stol_u32 s >>= λ seconds. ok (
    some (record {
      user_id = u;
      value = v;
      current_date = d ++ (codes " " ++ h);
      time_passed = seconds;
    }))
bid_of _ = ok none

unfoldable pub get_bid : FilePath → FileSystem → Outcome (Option BidInfo)
unfolding bid_of
get_bid p fs = bid_of (file_words 100 p fs)

first_child : List FilePath → Option FilePath
first_child [] = none
first_child (p ∷ ps) = some p

-- `none`: the empty string.
unfoldable pub get_asset_dir : Bytes → FileSystem → Outcome (Option FilePath)
unfolding first_child
get_asset_dir a_id fs =
    if not (verify_auction_id a_id)
    then ok none
    else iterate (asset_dir a_id) fs >>= λ ps. ok (first_child ps)

-- A file that cannot be opened gives the empty string.
unfoldable pub get_asset_data : FilePath → FileSystem → Bytes
get_asset_data p fs = elim (read_file p fs) [ none ↦ [] | some content ↦ content ]

unfoldable pub names_id : Bytes → List FilePath → Bool
unfolding file_id
names_id a_id [] = false
names_id a_id (p ∷ ps) =
    let rest = names_id a_id ps in if bytes_eq a_id (file_id p) then true else rest

unfoldable pub check_auction_belongs : Bytes → Bytes → FileSystem → Outcome Bool
unfolding names_id
check_auction_belongs a_id user_id fs =
    iterate (hosted_dir user_id) fs >>= λ ps. ok (names_id a_id ps)

unfoldable pub check_auction_exists : Bytes → FileSystem → Bool
check_auction_exists a_id fs = is_dir (auction_dir a_id) fs
