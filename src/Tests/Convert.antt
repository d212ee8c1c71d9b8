-- ===== src/Tests/Convert.antt =====
-- Identifiers and values as text.
use proj_rc.Base.{◌≡◌, ◌∷◌, arith, codes, ◌^◌, ◌-◌}
use proj_rc.Shared.Outcome.{ok}
use proj_rc.Shared.Decimal.{to_string, sprintf_d}
use proj_rc.Shared.Convert.{convert_user_id, convert_user_id_to_str, convert_auction_value}
use proj_rc.Shared.Convert.Laws.{convert_user_id-to_str, convert_auction_value_negative}

convert_user_id_padded : convert_user_id (codes "000042") ≡ ok 42
unfolding convert_user_id_to_str sprintf_d
convert_user_id_padded = convert_user_id-to_str 42 (omega arith) (omega arith)

convert_auction_value_negative_example :
    convert_auction_value (b'-' ∷ to_string 1) ≡ ok (2 ^ 32 - 1)
convert_auction_value_negative_example =
    convert_auction_value_negative 1 (omega arith) (omega arith)
