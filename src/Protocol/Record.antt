-- ===== src/Protocol/Record.antt =====
-- The answer to a request to show a record, and the answer to a wrong request (protocol.hpp,
-- protocol.cpp).
use proj_rc.Base.{
  ℕ, zero, suc, Option, none, some, List, [], ◌∷◌, ◌++◌, if◌then◌else◌, ltb, Bytes, bytes_eq, codes,
}
use proj_rc.Shared.Outcome.{invalid_message}
use proj_rc.Shared.Decimal.{to_string, stol_u32}
use proj_rc.Shared.Convert.{Datetime, convert_date_to_str}
use proj_rc.Protocol.Adapter.{Adapter}
use proj_rc.Protocol.Reader.{
  Reader, ◌>>=◌, ◌>>◌, pure, throw, lift, read_space, read_delimiter, read_string, read_message_id,
  read_user_id, read_auction_value, read_date, read_char_equal,
}
use proj_rc.Protocol.Codes.{code_showrec_server, code_error, space, endl}

pub record Bid : Type 0 where
  pub bidder_uid : ℕ
  pub bid_value : ℕ
  pub bid_date_time : Datetime
  pub bid_sec_time : ℕ

-- The fields of an answer whose status is OK. `end_sec_time` is 0 where no end has been set.
pub record ShownRecord : Type 0 where
  pub host_uid : ℕ
  pub auction_name : Bytes
  pub asset_fname : Bytes
  pub start_value : ℕ
  pub start_date_time : Datetime
  pub timeactive : ℕ
  pub bids : List Bid
  pub end_date_time : Datetime
  pub end_sec_time : ℕ

pub data ServerShowRecord : Type 0 where
  ok : ShownRecord → ServerShowRecord
  nok err : ServerShowRecord

-- A `Datetime` before it is set.
abbrev pub unset_date : Datetime
unset_date = record { year = []; month = []; day = []; hours = []; minutes = []; seconds = [] }

unfoldable pub bid_shown : Bid → Bytes
unfolding convert_date_to_str
bid_shown b =
    codes " B "
    ++ (to_string b.bidder_uid
        ++ (space
            ++ (to_string b.bid_value
                ++ (space
                    ++ (convert_date_to_str b.bid_date_time
                        ++ (space ++ to_string b.bid_sec_time))))))

unfoldable pub bids_shown : List Bid → Bytes
bids_shown [] = []
bids_shown (b ∷ bs) = bid_shown b ++ bids_shown bs

unfoldable pub end_shown : ShownRecord → Bytes
unfolding convert_date_to_str
end_shown m =
    if ltb 0 m.end_sec_time
    then codes " E " ++ (convert_date_to_str m.end_date_time ++ (space ++ to_string m.end_sec_time))
    else []

unfoldable pub start_shown : ShownRecord → Bytes
unfolding convert_date_to_str
start_shown m =
    to_string m.host_uid
    ++ (space
        ++ (m.auction_name
            ++ (space
                ++ (m.asset_fname
                    ++ (space
                        ++ (to_string m.start_value
                            ++ (space
                                ++ (convert_date_to_str m.start_date_time
                                    ++ (space ++ to_string m.timeactive)))))))))

unfoldable pub build_server_show_record : ServerShowRecord → Bytes
unfolding start_shown bids_shown end_shown
build_server_show_record (ServerShowRecord.ok m) =
    code_showrec_server
    ++ (space
        ++ (codes "OK"
            ++ (space ++ (start_shown m ++ (bids_shown m.bids ++ (end_shown m ++ endl))))))
build_server_show_record ServerShowRecord.nok =
    code_showrec_server ++ (space ++ (codes "NOK" ++ endl))
build_server_show_record ServerShowRecord.err =
    code_showrec_server ++ (space ++ (codes "ERR" ++ endl))

unfoldable pub build_server_error : Bytes
build_server_error = code_error ++ endl

-- The bids that the loop of `readMessage` has read; `none`: the fuel is used up.
abbrev cons_bid : Bid → Option (List Bid) → Option (List Bid)
cons_bid b none = none
cons_bid b (some bs) = some (b ∷ bs)

-- The end of an auction: the date, and the seconds that passed.
abbrev pub RecordEnd : Type 0
RecordEnd = Datetime × ℕ

abbrev pub no_end : RecordEnd
no_end = (unset_date, 0)

abbrev with_bids : ShownRecord → Option (List Bid) → RecordEnd → Option ServerShowRecord
with_bids m none e = none
with_bids m (some bs) (date, sec) =
    some (ServerShowRecord.ok (record m { bids = bs; end_date_time = date; end_sec_time = sec }))

module _ (a : Adapter) where
  open a use {Source}

  unfoldable pub read_bid : Reader Source Bid
  read_bid = do
    read_space a
    uid ← read_user_id a
    read_space a
    value ← read_string a 6 >>= λ str. lift (stol_u32 str)
    read_space a
    date ← read_date a
    read_space a
    sec ← read_string a 5 >>= λ str. lift (stol_u32 str)
    pure (record { bidder_uid = uid; bid_value = value; bid_date_time = date; bid_sec_time = sec })

  -- `while (readCharEqual(buffer, 'B'))`, which a bid with no space behind it breaks off.
  unfoldable pub read_bids : ℕ → Reader Source (Option (List Bid))
  unfolding read_bid
  read_bids zero = pure none
  read_bids (suc fuel) =
      let rest = read_bids fuel in
      read_char_equal a b'B' >>= λ is_bid.
      if is_bid
      then (read_bid >>= λ b. read_char_equal a b' ' >>= λ skip.
          if skip then (rest >>= λ bs. pure (cons_bid b bs)) else pure (some (b ∷ [])))
      else pure (some [])

  unfoldable pub read_end : Reader Source RecordEnd
  read_end = do
    read_space a
    date ← read_date a
    read_space a
    sec ← read_string a 5 >>= λ str. lift (stol_u32 str)
    read_delimiter a
    pure (date, sec)

  -- Without a space behind `timeactive`, nothing more is read.
  unfoldable pub read_bids_and_end : ℕ → ShownRecord → Reader Source (Option ServerShowRecord)
  unfolding read_bids read_end
  read_bids_and_end fuel m = read_char_equal a b' ' >>= λ more.
      if more
      then (read_bids fuel >>= λ bs. read_char_equal a b'E' >>= λ ended.
          if ended
          then (read_end >>= λ e. pure (with_bids m bs e))
          else pure (with_bids m bs no_end))
      else pure (with_bids m (some []) no_end)

  unfoldable pub read_record : ℕ → Reader Source (Option ServerShowRecord)
  unfolding read_bids_and_end
  read_record fuel = do
    read_space a
    host_uid ← read_user_id a
    read_space a
    auction_name ← read_string a 10
    read_space a
    asset_fname ← read_string a 24
    read_space a
    start_value ← read_auction_value a
    read_space a
    start_date_time ← read_date a
    read_space a
    timeactive ← read_string a 6 >>= λ str. lift (stol_u32 str)
    read_bids_and_end fuel (record {
      host_uid = host_uid;
      auction_name = auction_name;
      asset_fname = asset_fname;
      start_value = start_value;
      start_date_time = start_date_time;
      timeactive = timeactive;
      bids = [];
      end_date_time = unset_date;
      end_sec_time = 0;
    })

  record_by_status : ℕ → Bytes → Reader Source (Option ServerShowRecord)
  unfolding read_record
  record_by_status fuel status_str =
      if bytes_eq status_str (codes "OK")
      then read_record fuel
      else if bytes_eq status_str (codes "NOK")
      then (read_delimiter a >> pure (some ServerShowRecord.nok))
      else if bytes_eq status_str (codes "ERR")
      then (read_delimiter a >> pure (some ServerShowRecord.err))
      else throw invalid_message

  unfoldable pub read_server_show_record : ℕ → Reader Source (Option ServerShowRecord)
  unfolding record_by_status
  read_server_show_record fuel = do
    read_message_id a code_showrec_server
    read_space a
    status_str ← read_string a 3
    record_by_status fuel status_str
