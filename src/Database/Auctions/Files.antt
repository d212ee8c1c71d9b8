-- ===== src/Database/Auctions/Files.antt =====
-- The files of an auction (database.cpp): the functions that create them.
pub mod Laws
pub mod Bids
use proj_rc.Base.{
  ℕ, ◌^◌, Bool, true, false, not, Option, none, some, [], ◌∷◌, ◌++◌, if◌then◌else◌, ltb, Bytes,
  codes,
}
use proj_rc.Shared.Outcome.{Outcome, raised, auction_not_found, ◌>>=◌}
use proj_rc.Shared.Decimal.{to_string, stol_u32}
use proj_rc.Shared.Verifications.{
  verify_user_id, verify_name, verify_start_value, verify_timeactive, verify_auction_id,
  verify_value,
}
use proj_rc.Database.Clock.{Clock, date_text, get_current_date, add32, sub32, u32}
use proj_rc.Database.Files.{FileSystem, exists, is_dir, mkdir, write_file, read_file}
use proj_rc.Database.Files.Paths.{
  auction_dir, bids_dir, asset_dir, start_file, end_file, bid_file, FilePath,
}
use proj_rc.Database.Files.Names.{asset_path}
use proj_rc.Database.Auctions.Words.{c_str}
use proj_rc.Database.Auctions.Infos.{StartInfo, get_start}

unfoldable pub make_asset_dir : Bytes → FileSystem → Bool × FileSystem
make_asset_dir a_id fs =
    let (made, fs') = mkdir (asset_dir a_id) fs in if not made then (false, fs') else (true, fs')

unfoldable pub make_bids_dir : Bytes → FileSystem → Bool × FileSystem
unfolding make_asset_dir
make_bids_dir a_id fs =
    let (made, fs') = mkdir (bids_dir a_id) fs in
    if not made then (false, fs') else make_asset_dir a_id fs'

unfoldable pub create_auction_dir : Bytes → FileSystem → Bool × FileSystem
unfolding make_bids_dir
create_auction_dir a_id fs =
    if not (verify_auction_id a_id)
    then (false, fs)
    else (let (made, fs') = mkdir (auction_dir a_id) fs in
        if not made then (false, fs') else make_bids_dir a_id fs')

-- What CreateStartFile writes.
unfoldable pub start_text : Clock → Bytes → Bytes → Bytes → Bytes → Bytes → Bytes
start_text clock user_id name asset_fname start_value timeactive =
    user_id
    ++ (codes " "
        ++ (name
            ++ (codes " "
                ++ (asset_fname
                    ++ (codes " "
                        ++ (start_value
                            ++ (codes " "
                                ++ (timeactive
                                    ++ (codes " "
                                        ++ (get_current_date clock
                                            ++ (codes " " ++ to_string clock.now)))))))))))

unfoldable pub create_start_file :
    Clock → Bytes → Bytes → Bytes → Bytes → Bytes → Bytes → FileSystem → Bool × FileSystem
create_start_file clock a_id user_id name asset_fname start_value timeactive fs =
    if not (verify_timeactive timeactive)
    then (false, fs)
    else if not (verify_start_value start_value)
    then (false, fs)
    else if not (verify_name name)
    then (false, fs)
    else if not (verify_user_id user_id)
    then (false, fs)
    else if not (verify_auction_id a_id)
    then (false, fs)
    else write_file (start_file a_id)
        (c_str (start_text clock user_id name asset_fname start_value timeactive)) fs

unfoldable pub write_at : Option FilePath → Bytes → FileSystem → Bool × FileSystem
write_at none content fs = (false, fs)
write_at (some p) content fs = write_file p content fs

-- `file.open(dir_name, std::ofstream::trunc)` and `file << data`. The name goes into the path as it
-- is: with separators and dots it names another file of the tree, or one that is not in it.
unfoldable pub create_asset_file : Bytes → Bytes → Bytes → FileSystem → Bool × FileSystem
unfolding write_at
create_asset_file a_id asset_fname content fs =
    if not (verify_auction_id a_id)
    then (false, fs)
    else write_at (asset_path a_id (c_str asset_fname) fs) content fs

-- 0, -1 and 2 of CreateEndFile.
pub data EndCreation : Type 0 where
  created failed existed : EndCreation

-- What CreateEndFile writes: the time that has passed, but no more than the auction was to take.
unfoldable pub end_text : Clock → StartInfo → ℕ → Bytes
end_text clock start supposed_end =
    let time_passed = sub32 (u32 clock.now) start.current_time in
    if ltb supposed_end time_passed
    then date_text (clock.gmtime (add32 start.current_time supposed_end))
      ++ (codes " " ++ to_string supposed_end)
    else get_current_date clock ++ (codes " " ++ to_string time_passed)

unfoldable pub end_written : Bool × FileSystem → EndCreation × FileSystem
end_written (true, fs) = (EndCreation.created, fs)
end_written (false, fs) = (EndCreation.failed, fs)

unfoldable pub end_from :
    Clock → Bytes → FileSystem → Option StartInfo → Outcome (EndCreation × FileSystem)
unfolding end_text end_written
end_from clock a_id fs none = raised auction_not_found
end_from clock a_id fs (some start) = stol_u32 start.timeactive >>= λ supposed_end. Outcome.ok (
    if exists (end_file a_id) fs
    then (EndCreation.existed, fs)
    else end_written (write_file (end_file a_id) (c_str (end_text clock start supposed_end)) fs))

unfoldable pub create_end_file : Clock → Bytes → FileSystem → Outcome (EndCreation × FileSystem)
unfolding end_from
create_end_file clock a_id fs =
    if not (verify_auction_id a_id)
    then Outcome.ok (EndCreation.failed, fs)
    else get_start a_id fs >>= end_from clock a_id fs

-- What CreateBidFile writes.
unfoldable pub bid_text : Clock → StartInfo → Bytes → Bytes → Bytes
bid_text clock start user_id value =
    user_id
    ++ (codes " "
        ++ (value
            ++ (codes " "
                ++ (get_current_date clock
                    ++ (codes " " ++ to_string (sub32 (u32 clock.now) start.current_time))))))

unfoldable pub bid_from :
    Clock → Bytes → Bytes → Bytes → FileSystem → Option StartInfo → Outcome (Bool × FileSystem)
unfolding bid_text
bid_from clock a_id user_id value fs none = raised auction_not_found
bid_from clock a_id user_id value fs (some start) =
    Outcome.ok (write_file (bid_file a_id value) (c_str (bid_text clock start user_id value)) fs)

unfoldable pub create_bid_file :
    Clock → Bytes → Bytes → Bytes → FileSystem → Outcome (Bool × FileSystem)
unfolding bid_from
create_bid_file clock a_id user_id value fs = stol_u32 value >>= λ n.
    if not (verify_value n)
    then Outcome.ok (false, fs)
    else if not (verify_user_id user_id)
    then Outcome.ok (false, fs)
    else if not (verify_auction_id a_id)
    then Outcome.ok (false, fs)
    else get_start a_id fs >>= bid_from clock a_id user_id value fs
