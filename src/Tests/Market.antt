-- ===== src/Tests/Market.antt =====
-- A tree with two users and an auction, and what the operations meet in it.
use proj_rc.Database.Auctions.Open.{Opening}
use proj_rc.Database.Auctions.Listings.{AuctionList}
use proj_rc.Shared.Verifications.{verify_auction_id, verify_password, verify_user_id}
use proj_rc.Base.{◌≡◌, refl, true, false, some, [], ◌∷◌, ◌++◌, Bytes, codes}
use proj_rc.Shared.Outcome.{ok}
use proj_rc.Shared.Decimal.{pos, stol, stol_u32, to_string}
use proj_rc.Database.Clock.{Tm, Clock, date_text, get_current_date}
use proj_rc.Database.Files.{Entries, directory, regular, find, put, write_file, fgets}
use proj_rc.Database.Files.Paths.{
  users_dir, user_dir, hosted_dir, bidded_dir, pass_file, login_file, hosted_file, auctions_dir,
  auction_dir, bids_dir, asset_dir, start_file, end_file,
}
use proj_rc.Database.Files.Listing.{children, iterate, file_id}
use proj_rc.Database.Users.{check_user_existed, check_user_logged_in, correct_password}
use proj_rc.Database.Auctions.Words.{line_words}
use proj_rc.Database.Auctions.Infos.{
  StartInfo, get_start, check_auction_exists, check_auction_belongs,
}
use proj_rc.Database.Auctions.Files.{EndCreation, create_end_file}
use proj_rc.Database.Auctions.Close.{has_expired}
use proj_rc.Database.Auctions.Bid.{Bidding}
use proj_rc.Database.Auctions.Semaphore.Lost.{MayBid, MayClose}
use proj_rc.Tests.Data.{password, user, fs_of}

abbrev pub host : Bytes
host = codes "111111"

abbrev pub first_aid : Bytes
first_aid = codes "001"

abbrev pub start_content : Bytes
start_content = codes "111111 lamp lamp.jpg 10 100 2023-12-01 10:00:00 1000"

abbrev pub end_content : Bytes
end_content = codes "2023-12-01 10:00:00 100"

-- The auction runs 100 seconds from second 1000 on.
abbrev pub market : Entries
market =
    (users_dir, directory)
    ∷ (auctions_dir, directory)
    ∷ (user_dir user, directory)
    ∷ (hosted_dir user, directory)
    ∷ (bidded_dir user, directory)
    ∷ (pass_file user, regular password)
    ∷ (login_file user, regular [])
    ∷ (user_dir host, directory)
    ∷ (hosted_dir host, directory)
    ∷ (bidded_dir host, directory)
    ∷ (pass_file host, regular password)
    ∷ (login_file host, regular [])
    ∷ (hosted_file host first_aid, regular [])
    ∷ (auction_dir first_aid, directory)
    ∷ (bids_dir first_aid, directory)
    ∷ (asset_dir first_aid, directory)
    ∷ (start_file first_aid, regular start_content)
    ∷ []

abbrev pub ended_market : Entries
ended_market = market ++ ((end_file first_aid, regular end_content) ∷ [])

abbrev pub noon : Tm
noon = record { tm_year = 123; tm_mon = 11; tm_mday = 1; tm_hour = 10; tm_min = 0; tm_sec = 0 }

abbrev pub in_time : Clock
in_time = record { now = 1050; gmtime = λ s. noon }

abbrev pub too_late : Clock
too_late = record { now = 2000; gmtime = λ s. noon }

abbrev pub lamp : StartInfo
lamp = record {
  user_id = host;
  name = codes "lamp";
  asset_fname = codes "lamp.jpg";
  start_value = codes "10";
  timeactive = codes "100";
  current_date = codes "2023-12-01 10:00:00";
  current_time = 1000;
}

abbrev pub fifty : Bidding
fifty = record { user_id = user; password = password; a_id = first_aid; bid_value = codes "50" }

abbrev pub chair : Opening
chair = record {
  user_id = user;
  name = codes "chair";
  password = password;
  asset_fname = codes "chair.jpg";
  start_value = codes "5";
  timeactive = codes "60";
  content = codes "data";
}

abbrev pub one_active : AuctionList
one_active = record { a_id = first_aid; active = true } ∷ []

pub lamp-started : (get_start first_aid (fs_of market)) ≡ ok (some lamp)
unfolding get_start line_words find stol_u32 fgets
lamp-started = refl

pub lamp-expired : has_expired too_late lamp ≡ ok true
unfolding has_expired stol_u32
lamp-expired = refl

pub lamp-running : has_expired in_time lamp ≡ ok false
unfolding has_expired stol_u32
lamp-running = refl

pub fifty-MayBid : MayBid fifty (pos 50) lamp (fs_of market)
unfolding check_user_logged_in correct_password check_auction_exists check_auction_belongs iterate
    children file_id stol find get_start line_words verify_user_id verify_password stol_u32
fifty-MayBid = record {
  logged_in = refl;
  known = refl;
  is_there = refl;
  foreign = refl;
  has_value = refl;
  open_still = refl;
  started = refl;
}

pub host-MayClose : MayClose first_aid host password (fs_of ended_market)
unfolding check_user_existed check_user_logged_in correct_password check_auction_exists
    check_auction_belongs iterate children file_id find verify_user_id verify_password
host-MayClose = record {
  existed = refl;
  logged_in = refl;
  known = refl;
  is_there = refl;
  owned = refl;
}

pub market-ended :
    create_end_file too_late first_aid (fs_of market) ≡ ok (EndCreation.created, fs_of ended_market)
unfolding create_end_file get_start line_words find stol_u32 date_text get_current_date write_file
    put to_string verify_auction_id fgets
market-ended = refl
