-- ===== src/Database/Auctions/Files/Bids.antt =====
-- The file of a bid: what CreateBidFile writes, GetBid reads.
use proj_rc.Base.{
  ℕ, ◌<◌, true, ◌≡◌, ◌∙◌, sym, refl, ap, arith, some, inl, inr, List, [], ◌∷◌, append_assoc, Bytes,
  length,
}
use proj_rc.Shared.Outcome.{Outcome, ok, raised, outcome-cases}
use proj_rc.Shared.Outcome
use proj_rc.Shared.Decimal.{to_string, stol_u32}
use proj_rc.Shared.Decimal.Laws.{stol_u32-to_string}
use proj_rc.Database.Clock.{Clock, day_text, hour_text, date_text, get_current_date, u32, sub32}
use proj_rc.Database.Files.{FileSystem, read_file, write_file}
use proj_rc.Database.Files.Laws.{read_file-write_file}
use proj_rc.Database.Files.Paths.{bid_file}
use proj_rc.Database.Auctions.Words.{c_str}
use proj_rc.Database.Auctions.Words.Laws.{IsPlain, joined}
use proj_rc.Database.Auctions.Infos.{StartInfo, file_words, bid_of, get_start, get_bid}
use proj_rc.Database.Auctions.Files.{bid_text, create_bid_file, bid_from}
use proj_rc.Database.Auctions.Files.Laws.{
  day_text-IsPlain, hour_text-IsPlain, to_string-IsPlain, file_words-written,
}

-- The seconds since the start of the auction.
abbrev pub seconds_in : Clock → StartInfo → ℕ
seconds_in clock start = sub32 (u32 clock.now) start.current_time

abbrev bid_words : Clock → StartInfo → Bytes → Bytes → List Bytes
bid_words clock start u v =
    u
    ∷ v
    ∷ day_text (clock.gmtime clock.now)
    ∷ hour_text (clock.gmtime clock.now)
    ∷ to_string (seconds_in clock start)
    ∷ []

bid_text-joined :
    (clock : Clock) (start : StartInfo) (u v : Bytes)
    → bid_text clock start u v ≡ joined (bid_words clock start u v)
unfolding bid_text get_current_date date_text joined
bid_text-joined clock start u v = simp append_assoc

bid_written :
    (clock : Clock) (a_id u v : Bytes) (fs fs' : FileSystem) (start : StartInfo)
    → get_start a_id fs ≡ ok (some start)
    → create_bid_file clock a_id u v fs ≡ ok (true, fs')
    → write_file (bid_file a_id v) (c_str (bid_text clock start u v)) fs ≡ (true, fs')
unfolding create_bid_file bid_from
bid_written clock a_id u v fs fs' start s h = elim (outcome-cases (stol_u32 v)) [
  | inl (n, e) ↦ ground (arith, h, s, e)
  | inr (x, e) ↦ absurd (ground (arith, h, e))
]

-- When CreateBidFile has made the file of a bid with a plain user id and value, on a line
-- below 100 bytes, for an auction with a START file, GetBid reads from the new tree the user,
-- the value, the date and the seconds since the start.
pub get_bid-create_bid_file :
    (clock : Clock) (a_id user_id value : Bytes) (fs fs' : FileSystem) (start : StartInfo)
    → IsPlain user_id
    → IsPlain value
    → length (bid_text clock start user_id value) < 100
    → get_start a_id fs ≡ ok (some start)
    → create_bid_file clock a_id user_id value fs ≡ ok (true, fs')
    → get_bid (bid_file a_id value) fs'
      ≡ ok (
          some (record {
            user_id = user_id;
            value = value;
            current_date = get_current_date clock;
            time_passed = seconds_in clock start;
          }))
unfolding get_bid bid_of get_current_date date_text
get_bid-create_bid_file clock a_id u v fs fs' start pu pv fits s h =
    let text = bid_text-joined clock start u v in
    let tm = clock.gmtime clock.now in
    let seconds = seconds_in clock start in
    let found : read_file (bid_file a_id v) fs'
        ≡ some (c_str (joined (bid_words clock start u v))) =
      read_file-write_file _ _ fs fs' (bid_written clock a_id u v fs fs' start s h)
      ∙ ap (λ q. some (c_str q)) text in
    let got : file_words 100 (bid_file a_id v) fs' ≡ some (bid_words clock start u v) =
      file_words-written 100 (bid_file a_id v) fs' _ _ found
        (pu, (pv, (day_text-IsPlain tm, (hour_text-IsPlain tm, (to_string-IsPlain seconds, tt)))))
        (rw (sym text) fits) in
    rw (got, stol_u32-to_string seconds (omega arith), Outcome.◌>>=◌) refl
