-- ===== src/Shared/Convert.antt =====
-- src/shared/utils.cpp: conversions between the numbers of a message and their text. `saveToFile`,
-- `readFromFile` and `getFileSize` are file input and output, and are not modelled.
pub mod Laws
use proj_rc.Base.{ℕ, ◌++◌, if◌then◌else◌, Bytes, codes}
use proj_rc.Shared.Outcome.{Outcome, ok, raised, invalid_message, ◌>>=◌}
use proj_rc.Shared.Decimal.{sprintf_d, stol_u32, stoi, to_u32, map_ok}
use proj_rc.Shared.Verifications.{verify_user_id, verify_password, verify_auction_id, verify_value}

pub record Datetime : Type 0 where
  pub year : Bytes
  pub month : Bytes
  pub day : Bytes
  pub hours : Bytes
  pub minutes : Bytes
  pub seconds : Bytes

unfoldable pub extract_date : Datetime → Bytes
extract_date d = d.year ++ (codes "-" ++ (d.month ++ (codes "-" ++ d.day)))

unfoldable pub extract_time : Datetime → Bytes
extract_time d = d.hours ++ (codes ":" ++ (d.minutes ++ (codes ":" ++ d.seconds)))

unfoldable pub convert_user_id : Bytes → Outcome ℕ
convert_user_id s = if verify_user_id s then stol_u32 s else raised invalid_message

-- `char uid_c[7]` holds the result: see the bound in `Laws`.
unfoldable pub convert_user_id_to_str : ℕ → Bytes
convert_user_id_to_str uid = sprintf_d 6 uid

unfoldable pub convert_auction_id : Bytes → Outcome ℕ
convert_auction_id s =
    if verify_auction_id s then map_ok to_u32 (stoi s) else raised invalid_message

unfoldable pub convert_auction_id_to_str : ℕ → Bytes
convert_auction_id_to_str aid = sprintf_d 3 aid

unfoldable pub convert_auction_value : Bytes → Outcome ℕ
convert_auction_value s =
    stol_u32 s >>= λ value. if verify_value value then ok value else raised invalid_message

unfoldable pub convert_password : Bytes → Outcome Bytes
convert_password s = if verify_password s then ok s else raised invalid_message

unfoldable pub convert_date_to_str : Datetime → Bytes
convert_date_to_str d =
    d.year
    ++ (codes "-"
        ++ (d.month
            ++ (codes "-"
                ++ (d.day
                    ++ (codes " "
                        ++ (d.hours ++ (codes ":" ++ (d.minutes ++ (codes ":" ++ d.seconds)))))))))
