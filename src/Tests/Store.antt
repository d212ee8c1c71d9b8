-- ===== src/Tests/Store.antt =====
-- The operations on auctions, in the tree of `Market`.
use proj_rc.Database.Users.{check_user_logged_in, correct_password, register_bid}
use proj_rc.Shared.Verifications.{verify_auction_id, verify_password, verify_user_id, verify_value}
use proj_rc.Database.Auctions.Words.{line_words, c_str, split, words}
use proj_rc.Base.{ℕ, ◌≡◌, ◌≢◌, refl, arith, true, false, some, List, [], ◌∷◌, ◌++◌, codes}
use proj_rc.Shared.Outcome.{ok, auction_already_closed}
use proj_rc.Shared.Chars.{isspace, isalnum, isdigit}
use proj_rc.Shared.Decimal.{
  pos, stoi, stol_u32, to_u32, digit_prefix, digits, pad, skip_spaces, stol, to_string,
}
use proj_rc.Database.Clock.{get_current_date, date_text, day_text, hour_text}
use proj_rc.Database.Files.{Entries, regular, fgets, find, put, write_file}
use proj_rc.Database.Files.Paths.{FilePath, bid_file, bids_dir, auction_dir, path_text}
use proj_rc.Database.Files.Listing.{iterate, dir_id, children, file_id, last_three, without_suffix}
use proj_rc.Database.Monad.{
  Db, done, raised, blocked, semaphore_wait, post_return, post_throw, semaphore_post,
}
use proj_rc.Database.Auctions.Words.Laws.{IsPlain}
use proj_rc.Database.Auctions.Infos.{
  BidInfo, get_start, get_bid, bid_of, check_auction_belongs, check_auction_exists, names_id,
  start_of,
}
use proj_rc.Database.Auctions.Files.{
  EndCreation, create_end_file, create_bid_file, bid_from, bid_text, end_from, end_text,
  end_written,
}
use proj_rc.Database.Auctions.Sort.{sort_by}
use proj_rc.Database.Auctions.Open.{open_auction, new_aid}
use proj_rc.Database.Auctions.Open.Fresh.{IsFresh, new_aid-IsFresh}
use proj_rc.Database.Auctions.Close.{close_auction, has_expired, close, close_by_file}
use proj_rc.Database.Auctions.Bid.{
  bid, BidResult, at_least, bid_in_time, bid_locked, bid_running, bid_started, is_too_small,
  larger_bid, place_bid, too_small,
}
use proj_rc.Database.Auctions.Bid.Accept.{IsAccepted, bid-IsAccepted}
use proj_rc.Database.Auctions.Listings.{list_one, list_dir, list_auctions, my_auctions}
use proj_rc.Database.Auctions.Record.{
  Stack, AuctionRecord, record_of, list_bids, bids_from, no_bid, show_record, show_record_locked,
}
use proj_rc.Database.Auctions.Record.Laws.{IsLast, IsShown, list_bids-IsLast, show_record-IsShown}
use proj_rc.Database.Auctions.Semaphore.{open_auction-Runs}
use proj_rc.Database.Auctions.Semaphore.Stuck.{
  IsStuck, bid-expired-IsStuck, close_auction-ended-IsStuck,
}
use proj_rc.Database.Auctions.Semaphore.Gained.{list_auctions-two_inside, my_auctions-Ends}
use proj_rc.Tests.Data.{password, user, fs_of, db_of}
use proj_rc.Tests.Market.{
  host, first_aid, market, ended_market, in_time, too_late, lamp, fifty, chair, one_active,
  lamp-expired, lamp-running, fifty-MayBid, host-MayClose, market-ended,
}

bid-expired-IsStuck_example :
    (bid too_late fifty (db_of market)
      ≡ (raised auction_already_closed, record { fs = fs_of ended_market; sem = 0 }))
    × IsStuck (bid too_late fifty (db_of market)).1
bid-expired-IsStuck_example =
    bid-expired-IsStuck too_late fifty (pos 50) lamp EndCreation.created (fs_of ended_market)
      (db_of market) refl fifty-MayBid lamp-expired market-ended

ended-started : get_start first_aid (fs_of ended_market) ≡ ok (some lamp)
unfolding get_start find line_words fgets stol_u32
ended-started = refl

ended-existed :
    create_end_file in_time first_aid (fs_of ended_market)
    ≡ ok (EndCreation.existed, fs_of ended_market)
unfolding create_end_file verify_auction_id get_start find line_words fgets stol_u32
ended-existed = refl

close_auction-ended-IsStuck_example :
    (close_auction in_time first_aid host password (db_of ended_market)
      ≡ (raised auction_already_closed, record { fs = fs_of ended_market; sem = 0 }))
    × IsStuck (close_auction in_time first_aid host password (db_of ended_market)).1
unfolding find
close_auction-ended-IsStuck_example =
    close_auction-ended-IsStuck in_time first_aid host password lamp false (fs_of ended_market)
      (db_of ended_market) refl host-MayClose refl ended-started lamp-running ended-existed

two_next : new_aid (fs_of market) ≡ ok 2
unfolding new_aid iterate find children stoi dir_id to_u32
two_next = refl

open_auction-Runs_example :
    ((open_auction in_time chair (db_of market)).0 ≢ blocked)
    × ((open_auction in_time chair (db_of market)).1.sem ≡ 1)
open_auction-Runs_example = open_auction-Runs in_time chair 2 (db_of market) (omega arith) two_next

abbrev gained : Db
gained = record { fs = fs_of market; sem = 2 }

market-listed : list_auctions in_time (db_of market) ≡ (done one_active, gained)
unfolding list_auctions iterate find children list_one get_start dir_id line_words fgets stol_u32
    has_expired sort_by
market-listed = refl

list_auctions-two_inside_example :
    (gained.sem ≡ 2)
    × ((semaphore_wait gained).0 ≡ done tt)
    × ((semaphore_wait (semaphore_wait gained).1).0 ≡ done tt)
list_auctions-two_inside_example =
    list_auctions-two_inside in_time (db_of market) gained one_active refl market-listed

host-listed : (my_auctions in_time host (db_of market)).0 ≡ done one_active
unfolding my_auctions semaphore_wait list_dir iterate find children list_one get_start file_id
    line_words fgets stol_u32 has_expired sort_by
host-listed = refl

my_auctions-Ends_example : (my_auctions in_time host (db_of market)).1.sem ≡ 1
my_auctions-Ends_example =
    my_auctions-Ends in_time host (db_of market) (omega arith) one_active host-listed

abbrev after_bid : Db
after_bid = (bid in_time fifty (db_of market)).1

fifty-accepted : bid in_time fifty (db_of market) ≡ (done BidResult.accept, after_bid)
unfolding bid semaphore_wait bid_locked check_user_logged_in verify_user_id find correct_password
    verify_password check_auction_exists check_auction_belongs iterate children stol get_start
    line_words stol_u32 has_expired at_least bid_in_time bid_running bid_started is_too_small
    larger_bid place_bid too_small close close_by_file bid_from bid_text create_bid_file
    create_end_file end_from end_text end_written bid_of get_bid names_id start_of c_str split words
    date_text day_text get_current_date hour_text file_id last_three without_suffix path_text fgets
    put write_file post_return post_throw semaphore_post register_bid isalnum isdigit isspace
    digit_prefix digits pad skip_spaces to_string to_u32 verify_auction_id verify_value
fifty-accepted = refl

bid-IsAccepted_example : IsAccepted in_time fifty (db_of market) after_bid
bid-IsAccepted_example =
    bid-IsAccepted in_time fifty (db_of market) after_bid (omega arith) fifty-accepted

first_aid-number : stoi (dir_id (auction_dir first_aid)) ≡ ok (pos 1)
unfolding stoi dir_id
first_aid-number = refl

new_aid-IsFresh_example : (n : ℕ) × IsFresh (fs_of market) n
unfolding children find
new_aid-IsFresh_example =
    new_aid-IsFresh (fs_of market) refl ((1, omega arith, first_aid-number), tt)

abbrev bid_market : Entries
bid_market =
    market
    ++ ((bid_file first_aid (codes "50"), regular (codes "123456 50 2023-12-01 10:00:00 50")) ∷ [])

abbrev stack : Stack
stack = record { junk = 7 }

abbrev fifty_info : BidInfo
fifty_info = record {
  user_id = user;
  value = codes "50";
  current_date = codes "2023-12-01 10:00:00";
  time_passed = 50;
}

fifty-listed : list_bids stack first_aid (fs_of bid_market) ≡ ok (fifty_info ∷ [])
unfolding list_bids iterate find bids_from children get_bid line_words fgets stol_u32 sort_by
fifty-listed = refl

list_bids-IsLast_example :
    (ps : List FilePath) × (all : List BidInfo) × (iterate (bids_dir first_aid) (fs_of bid_market)
      ≡ ok ps)
    × (bids_from (no_bid stack) ps (fs_of bid_market) ≡ ok all)
    × IsLast all (fifty_info ∷ [])
list_bids-IsLast_example =
    list_bids-IsLast stack first_aid (fs_of bid_market) (fifty_info ∷ []) fifty-listed

abbrev lamp_record : AuctionRecord
lamp_record = record {
  host_id = host;
  auction_name = codes "lamp";
  asset_fname = codes "lamp.jpg";
  start_value = codes "10";
  start_datetime = codes "2023-12-01 10:00:00";
  timeactive = codes "100";
  list = fifty_info ∷ [];
  active = true;
  end_datetime = [];
  end_timeelapsed = 7;
}

lamp-shown :
    show_record in_time stack first_aid (db_of bid_market) ≡ (done lamp_record, db_of bid_market)
unfolding show_record semaphore_wait show_record_locked get_start find line_words fgets stol_u32
    has_expired list_bids iterate bids_from children get_bid sort_by record_of
lamp-shown = refl

show_record-IsShown_example :
    IsShown in_time stack first_aid (fs_of bid_market) (fs_of bid_market) lamp_record
show_record-IsShown_example =
    show_record-IsShown in_time stack first_aid (db_of bid_market) (db_of bid_market) lamp_record
      (omega arith) lamp-shown

host-IsPlain : IsPlain host
unfolding isspace
host-IsPlain = (omega arith, ground arith)
