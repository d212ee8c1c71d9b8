-- ===== src/Tests/Files.antt =====
-- The files of an auction, dates, and the directories at the start of the server.
use proj_rc.Database.Users.{
  check_user_existed, check_user_logged_in, correct_password, register_host,
}
use proj_rc.Database.Auctions.Sort.{sort_by}
use proj_rc.Database.Auctions.Words.{line_words, c_str, split, words}
use proj_rc.Shared.Verifications.{
  verify_auction_id, verify_name, verify_start_value, verify_timeactive, verify_user_id,
  verify_value, verify_password,
}
use proj_rc.Shared.Decimal.{
  stol_u32, to_string, digit_prefix, digits, pad, skip_spaces, sprintf_d, stoi, stol, to_u32,
}
use proj_rc.Base.{◌≡◌, ◌≤◌, ◌<◌, ◌++◌, refl, arith, true, some, List, [], ◌∷◌, map, codes, length}
use mathlib.Core.List.{Perm}
use proj_rc.Shared.Outcome.{ok}
use proj_rc.Shared.Chars.{isspace, isalnum, isdigit, isprint}
use proj_rc.Shared.Convert.{Datetime, convert_date_to_str, convert_auction_id_to_str}
use proj_rc.Shared.Dates.{convert_str_to_date}
use proj_rc.Shared.Dates.Laws.{IsDate, convert_str_to_date-to_str}
use proj_rc.Database.Clock.{get_current_date, date_text, day_text, hour_text}
use proj_rc.Database.Files.{
  regular, FileSystem, is_dir, exists, read_file, fgets, find, write_file, put, delete, mkdir,
}
use proj_rc.Database.Files.Paths.{FilePath, auctions_dir, end_file, start_file, bid_file, path_text}
use proj_rc.Database.Files.Names.Laws.{IsFileName}
use proj_rc.Database.Files.Names.{asset_path, components, resolve, follow, finish, child}
use proj_rc.Database.Files.Listing.{
  iterate, dir_id, children, file_id, last_three, rmdir, without_suffix,
}
use proj_rc.Database.Monad.{Db, done, post_return, post_throw, semaphore_post, semaphore_wait}
use proj_rc.Database.Users.State.{IsUsable}
use proj_rc.Database.Auctions.Words.Laws.{IsPlain}
use proj_rc.Database.Auctions.Infos.{
  get_start, get_end, get_bid, check_auction_belongs, check_auction_exists, names_id, start_of,
}
use proj_rc.Database.Auctions.Files.{
  create_start_file, create_end_file, create_bid_file, start_text, end_text, bid_text,
  create_asset_file, create_auction_dir, end_from, end_written,
}
use proj_rc.Database.Auctions.Files.Laws.{
  IsStartLine, end_moment, get_start-create_start_file, get_end-create_end_file,
}
use proj_rc.Database.Auctions.Files.Bids.{seconds_in, get_bid-create_bid_file}
use proj_rc.Database.Auctions.Open.{
  Opening, opened, open_auction, create_auction, first_id, new_aid, next_id, open_locked,
}
use proj_rc.Database.Auctions.Open.Escape.{start_name, open_auction-start_name}
use proj_rc.Database.Auctions.Open.Effects.{IsOpened, open_auction-IsOpened}
use proj_rc.Database.Auctions.Close.{
  CloseResult, close_auction, has_expired, close, close_auction_locked, close_by_file,
  close_expired, close_owned, close_started,
}
use proj_rc.Database.Auctions.Close.Effects.{IsClosed, close_auction-IsClosed}
use proj_rc.Database.Auctions.Listings.{AuctionList, aid_key, list_one, list_dir}
use proj_rc.Database.Auctions.Listings.Laws.{IsListed, a_ids, list_one-IsListed, list_dir-IsSorted}
use proj_rc.Database.Auctions.Listings.Keeps.{list_dir-Keeps}
use proj_rc.Database.Auctions.Sort.Laws.{IsSorted}
use proj_rc.Database.Auctions.Record.{create_base_dir}
use proj_rc.Database.Auctions.Record.Base.{create_base_dir-IsUsable}
use proj_rc.Tests.Data.{password, user, fs_of, db_of}
use proj_rc.Tests.Market.{
  host, first_aid, start_content, market, ended_market, in_time, too_late, lamp, chair, one_active,
  lamp-started, market-ended,
}

user-IsPlain : IsPlain user
unfolding isspace
user-IsPlain = (omega arith, ground arith)

fifty-IsPlain : IsPlain (codes "50")
unfolding isspace
fifty-IsPlain = (omega arith, ground arith)

lamp_line-IsStartLine :
    IsStartLine in_time host (codes "lamp") (codes "lamp.jpg") (codes "10") (codes "100")
unfolding isspace start_text get_current_date date_text to_string
lamp_line-IsStartLine = record {
  user_word = (omega arith, ground arith);
  name_word = (omega arith, ground arith);
  asset_word = (omega arith, ground arith);
  value_word = (omega arith, ground arith);
  time_word = (omega arith, ground arith);
  now_fits = omega arith;
  fits = omega arith;
}

abbrev restarted : FileSystem
restarted =
    (create_start_file in_time first_aid host (codes "lamp") (codes "lamp.jpg") (codes "10")
      (codes "100") (fs_of market)).1

restarted-written :
    create_start_file in_time first_aid host
      (codes "lamp")
      (codes "lamp.jpg")
      (codes "10")
      (codes "100")
      (fs_of market)
    ≡ (true, restarted)
unfolding create_start_file verify_timeactive verify_start_value verify_name verify_user_id
    verify_auction_id write_file find
restarted-written = refl

get_start-create_start_file_example :
    get_start first_aid restarted
    ≡ ok (
        some (record {
          user_id = host;
          name = codes "lamp";
          asset_fname = codes "lamp.jpg";
          start_value = codes "10";
          timeactive = codes "100";
          current_date = get_current_date in_time;
          current_time = 1050;
        }))
get_start-create_start_file_example =
    get_start-create_start_file in_time first_aid host (codes "lamp") (codes "lamp.jpg")
      (codes "10") (codes "100") (fs_of market) restarted lamp_line-IsStartLine restarted-written

end-fits : length (end_text too_late lamp 100) < 200
unfolding end_text date_text to_string
end-fits = omega arith

lamp-timeactive : stol_u32 lamp.timeactive ≡ ok 100
unfolding stol_u32
lamp-timeactive = refl

get_end-create_end_file_example :
    (get_end (end_file first_aid) (fs_of ended_market)
      ≡ ok (
          some (record {
            end_date = date_text (end_moment too_late lamp 100).0;
            end_time = (end_moment too_late lamp 100).1;
          })))
    × ((end_moment too_late lamp 100).1 ≤ 100)
    × (exists (end_file first_aid) (fs_of ended_market) ≡ true)
get_end-create_end_file_example =
    get_end-create_end_file too_late first_aid (fs_of market) (fs_of ended_market) lamp 100
      (omega arith) end-fits lamp-started lamp-timeactive market-ended

bid-fits : length (bid_text in_time lamp user (codes "50")) < 100
unfolding bid_text get_current_date to_string
bid-fits = omega arith

abbrev with_bid : FileSystem
with_bid = fs_of (
    market
    ++ ((bid_file first_aid (codes "50"), regular (codes "123456 50 2023-12-01 10:00:00 50")) ∷ []))

bid-written :
    create_bid_file in_time first_aid user (codes "50") (fs_of market) ≡ ok (true, with_bid)
unfolding create_bid_file stol_u32 verify_value verify_user_id verify_auction_id get_start find
    line_words fgets write_file put get_current_date to_string
bid-written = refl

get_bid-create_bid_file_example :
    get_bid (bid_file first_aid (codes "50")) with_bid
    ≡ ok (
        some (record {
          user_id = user;
          value = codes "50";
          current_date = get_current_date in_time;
          time_passed = seconds_in in_time lamp;
        }))
get_bid-create_bid_file_example =
    get_bid-create_bid_file in_time first_aid user (codes "50") (fs_of market) with_bid lamp
      user-IsPlain fifty-IsPlain bid-fits lamp-started bid-written

abbrev some_date : Datetime
some_date = record {
  year = codes "2023";
  month = codes "12";
  day = codes "01";
  hours = codes "10";
  minutes = codes "05";
  seconds = codes "59";
}

some_date-IsDate : IsDate some_date
some_date-IsDate = record {
  year = record { width = refl; digits = ground arith };
  month = record { width = refl; digits = ground arith };
  day = record { width = refl; digits = ground arith };
  hours = record { width = refl; digits = ground arith };
  minutes = record { width = refl; digits = ground arith };
  seconds = record { width = refl; digits = ground arith };
}

convert_str_to_date-to_str_example :
    convert_str_to_date 7 (convert_date_to_str some_date) ≡ some_date
convert_str_to_date-to_str_example = convert_str_to_date-to_str 7 some_date some_date-IsDate

lamp-active :
    list_one in_time first_aid (db_of market)
    ≡ (done (record { a_id = first_aid; active = true }), db_of market)
unfolding list_one find get_start line_words fgets stol_u32 has_expired
lamp-active = refl

list_one-IsListed_example :
    IsListed in_time first_aid (fs_of market) (record { a_id = first_aid; active = true })
list_one-IsListed_example =
    list_one-IsListed in_time first_aid (db_of market) (db_of market)
      (record { a_id = first_aid; active = true }) lamp-active

all-listed :
    list_dir in_time auctions_dir dir_id (db_of market)
    ≡ (done one_active, record { fs = fs_of market; sem = 2 })
unfolding list_dir iterate find children list_one get_start dir_id line_words fgets stol_u32
    has_expired sort_by
all-listed = refl

list_dir-IsSorted_example :
    (ps : List FilePath) × (met : AuctionList) × (iterate auctions_dir (fs_of market) ≡ ok ps)
    × (a_ids met ≡ map dir_id ps)
    × Perm one_active met
    × IsSorted aid_key one_active
list_dir-IsSorted_example =
    list_dir-IsSorted in_time auctions_dir dir_id (db_of market)
      (record { fs = fs_of market; sem = 2 }) one_active all-listed

start-there : read_file (start_file first_aid) (fs_of market) ≡ some start_content
unfolding find
start-there = refl

list_dir-Keeps_example :
    read_file (start_file first_aid) (list_dir too_late auctions_dir dir_id (db_of market)).1.fs
    ≡ some start_content
list_dir-Keeps_example =
    list_dir-Keeps too_late auctions_dir dir_id (db_of market) (start_file first_aid) start_content
      start-there

create_base_dir-IsUsable_example :
    ((create_base_dir (db_of [])).0 ≡ true)
    × IsUsable (create_base_dir (db_of [])).1.fs
    × (is_dir auctions_dir (create_base_dir (db_of [])).1.fs ≡ true)
    × ((create_base_dir (db_of [])).1.sem ≡ 1)
unfolding find
create_base_dir-IsUsable_example = create_base_dir-IsUsable (db_of []) (λ p. refl) (λ p. refl)

abbrev after_close : Db
after_close = (close_auction in_time first_aid host password (db_of market)).1

lamp-closed :
    close_auction in_time first_aid host password (db_of market)
    ≡ (done CloseResult.ok, after_close)
unfolding close_auction semaphore_wait close_auction_locked check_user_existed find
    check_user_logged_in verify_user_id correct_password verify_password check_auction_exists
    check_auction_belongs iterate children get_start line_words stol_u32 has_expired close
    close_by_file close_expired close_owned close_started create_end_file end_from end_text
    end_written names_id start_of c_str split words date_text day_text get_current_date hour_text
    file_id last_three without_suffix path_text fgets put write_file post_return post_throw
    semaphore_post isalnum isdigit isspace digit_prefix digits pad skip_spaces stol to_string to_u32
    verify_auction_id
lamp-closed = refl

close_auction-IsClosed_example : IsClosed in_time first_aid host password (db_of market) after_close
close_auction-IsClosed_example =
    close_auction-IsClosed in_time first_aid host password (db_of market) after_close (omega arith)
      lamp-closed

abbrev after_open : Db
after_open = (open_auction in_time chair (db_of market)).1

chair-opened : open_auction in_time chair (db_of market) ≡ (done (opened 2), after_open)
unfolding open_auction semaphore_wait open_locked check_user_logged_in verify_user_id find
    correct_password verify_password new_aid iterate children stoi dir_id to_u32 create_auction_dir
    verify_auction_id convert_auction_id_to_str create_asset_file asset_path components resolve
    finish child create_start_file start_text create_auction first_id next_id c_str date_text
    day_text get_current_date hour_text last_three rmdir path_text delete fgets mkdir put write_file
    post_return post_throw semaphore_post register_host isalnum isdigit isprint isspace digit_prefix
    digits pad skip_spaces sprintf_d to_string verify_name verify_start_value verify_timeactive
chair-opened = refl

chair-named : IsFileName (codes "chair.jpg")
chair-named = record {
  no_separator = (refl, (refl, (refl, (refl, (refl, (refl, (refl, (refl, (refl, tt)))))))));
  no_zero = (refl, (refl, (refl, (refl, (refl, (refl, (refl, (refl, (refl, tt)))))))));
  not_empty = refl;
  not_dot = refl;
  not_dots = refl;
}

open_auction-IsOpened_example : IsOpened in_time chair 2 (db_of market) after_open
open_auction-IsOpened_example =
    open_auction-IsOpened in_time chair 2 (db_of market) after_open chair-named (omega arith)
      chair-opened

abbrev trap : Opening
trap = record chair { asset_fname = codes "../START_002.txt" }

abbrev after_trap : Db
after_trap = (open_auction in_time trap (db_of market)).1

trap-opened : open_auction in_time trap (db_of market) ≡ (done (opened 2), after_trap)
unfolding open_auction semaphore_wait open_locked check_user_logged_in verify_user_id find
    correct_password verify_password new_aid iterate children stoi dir_id to_u32 create_auction_dir
    verify_auction_id convert_auction_id_to_str create_asset_file asset_path components resolve
    follow finish child create_start_file start_text create_auction first_id next_id c_str date_text
    day_text get_current_date hour_text last_three rmdir path_text delete fgets mkdir put write_file
    post_return post_throw semaphore_post register_host isalnum isdigit isprint isspace digit_prefix
    digits pad skip_spaces sprintf_d to_string verify_name verify_start_value verify_timeactive
trap-opened = refl

trap-named : codes "../START_002.txt" ≡ start_name (convert_auction_id_to_str 2)
unfolding convert_auction_id_to_str sprintf_d
trap-named = refl

open_auction-start_name_example :
    find (start_file (convert_auction_id_to_str 2)) after_trap.fs.entries
    ≡ some (regular (codes "data"))
open_auction-start_name_example =
    open_auction-start_name in_time trap 2 (db_of market) after_trap trap-named (omega arith)
      trap-opened
