-- ===== src/Shared/Convert/Laws.antt =====
-- The conversions undo each other on the identifiers that the verifications accept.
use proj_rc.Base.{ℕ, suc, ◌-◌, ◌^◌, ◌≤◌, ◌<◌, ◌≡◌, false, sym, ap, ◌∙◌, ◌∷◌, arith, All, Bytes}
use proj_rc.Shared.Outcome.{ok, ok-injective}
use proj_rc.Shared.Chars.{IsDigit}
use proj_rc.Shared.Decimal.{value_from, to_string, sprintf_d, stol_u32, stol, stoi, pos, to_u32}
use proj_rc.Shared.Decimal.Laws.{
  value_from-pad, length-pad, pad-IsDigit, value_from-to_string, to_string-IsDigit,
  length-to_string-le, length-to_string-ge, sprintf_d-eq-pad, value_from-lt, value_from-injective,
  stol_u32-digits, stol_u32-to_string, stoi-digits, stol-minus,
}
use proj_rc.Shared.Verifications.{verify_user_id, verify_value}
use proj_rc.Shared.Verifications.Laws.{
  IsUserId, IsAuctionId, verify_user_id-IsUserId, IsUserId-verify, IsAuctionId-verify,
}
use proj_rc.Shared.Convert.{
  convert_user_id, convert_user_id_to_str, convert_auction_value, convert_auction_id,
  convert_auction_id_to_str,
}

-- What `sprintf("%0Nd")` prints, for a number of at most N = k + 1 digits.
pub sprintf_d-digits : (k n : ℕ) → n < 2 ^ 31 → All IsDigit (sprintf_d (suc k) n)
sprintf_d-digits k n h =
    rw (sprintf_d-eq-pad (suc k) n h) (pad-IsDigit (suc k) (to_string n) (to_string-IsDigit n))

pub value_from-sprintf_d : (k n : ℕ) → n < 2 ^ 31 → value_from 0 (sprintf_d (suc k) n) ≡ n
value_from-sprintf_d k n h =
    rw (sprintf_d-eq-pad (suc k) n h)
      (value_from-pad (suc k) (to_string n) ∙ value_from-to_string n)

pub convert_user_id_to_str-IsUserId :
    (uid : ℕ) → 0 < uid → uid < 1_000_000 → IsUserId (convert_user_id_to_str uid)
unfolding convert_user_id_to_str
convert_user_id_to_str-IsUserId uid p h = record {
  six =
      rw (sprintf_d-eq-pad 6 uid (omega arith))
        (length-pad 6 (to_string uid) (length-to_string-le uid 5 h));
  digits = sprintf_d-digits 5 uid (omega arith);
  positive = omega (arith, value_from-sprintf_d 5 uid (omega arith));
}

pub value_from-user_id-lt : (s : Bytes) → IsUserId s → value_from 0 s < 1_000_000
value_from-user_id-lt s h = let b = value_from-lt 0 s h.digits in rw h.six at b

convert_user_id-IsUserId : (s : Bytes) → IsUserId s → convert_user_id s ≡ ok (value_from 0 s)
unfolding convert_user_id
convert_user_id-IsUserId s h =
    rw (IsUserId-verify s h)
      (stol_u32-digits s (omega (arith, h.six)) h.digits (omega (arith, value_from-user_id-lt s h)))

convert_user_id_valid : (s : Bytes) (uid : ℕ) → convert_user_id s ≡ ok uid → IsUserId s
unfolding convert_user_id
convert_user_id_valid s uid h = verify_user_id-IsUserId s (ground arith)

-- A user id from 1 to 999999, printed with six digits, converts back to itself.
pub convert_user_id-to_str :
    (uid : ℕ) → 0 < uid → uid < 1_000_000 → convert_user_id (convert_user_id_to_str uid) ≡ ok uid
convert_user_id-to_str uid p h =
    convert_user_id-IsUserId _ (convert_user_id_to_str-IsUserId uid p h)
    ∙ ap ok (unfold convert_user_id_to_str in value_from-sprintf_d 5 uid (omega arith))

-- A text that converts to a user id is the text that this id prints as, and the id is from 1
-- to 999999.
pub to_str-convert_user_id :
    (s : Bytes) (uid : ℕ)
    → convert_user_id s ≡ ok uid
    → (convert_user_id_to_str uid ≡ s) × (0 < uid) × (uid < 1_000_000)
to_str-convert_user_id s uid h =
    let valid : IsUserId s = convert_user_id_valid s uid h in
    let same : value_from 0 s ≡ uid = ok-injective (sym (convert_user_id-IsUserId s valid) ∙ h) in
    let bound = value_from-user_id-lt s valid in
    let pos : 0 < uid = omega (arith, valid.positive) in
    let printed = convert_user_id_to_str-IsUserId uid pos (omega arith) in
    let value_printed : value_from 0 (convert_user_id_to_str uid) ≡ uid =
      unfold convert_user_id_to_str in value_from-sprintf_d 5 uid (omega arith) in
    (
      (value_from-injective 0 0 (convert_user_id_to_str uid) s (printed.six ∙ sym valid.six)
          printed.digits valid.digits (value_printed ∙ sym same)).1,
      pos,
      omega arith,
    )

pub convert_auction_id_to_str-IsAuctionId :
    (aid : ℕ) → aid < 1000 → IsAuctionId (convert_auction_id_to_str aid)
unfolding convert_auction_id_to_str
convert_auction_id_to_str-IsAuctionId aid h = record {
  three =
      rw (sprintf_d-eq-pad 3 aid (omega arith))
        (length-pad 3 (to_string aid) (length-to_string-le aid 2 h));
  digits = sprintf_d-digits 2 aid (omega arith);
}

pub stoi-auction_id_to_str :
    (aid : ℕ) → aid < 1000 → stoi (convert_auction_id_to_str aid) ≡ ok (pos aid)
stoi-auction_id_to_str aid h =
    let v = convert_auction_id_to_str-IsAuctionId aid h in
    let same : value_from 0 (convert_auction_id_to_str aid) ≡ aid =
      unfold convert_auction_id_to_str in value_from-sprintf_d 2 aid (omega arith) in
    stoi-digits _ (omega (arith, v.three)) v.digits (omega (arith, same))
    ∙ ap (λ n. ok (pos n)) same

convert_auction_id-IsAuctionId :
    (s : Bytes) → IsAuctionId s → convert_auction_id s ≡ ok (value_from 0 s)
unfolding convert_auction_id
convert_auction_id-IsAuctionId s h =
    let b = value_from-lt 0 s h.digits in
    let small : value_from 0 s < 1000 = rw h.three at b in
    rw (IsAuctionId-verify s h) (
      rw (stoi-digits s (omega (arith, h.three)) h.digits (omega arith))
        (ap ok (unfold to_u32 in omega arith)))

-- An auction id below 1000, printed with three digits, converts back to itself.
pub convert_auction_id-to_str :
    (aid : ℕ) → aid < 1000 → convert_auction_id (convert_auction_id_to_str aid) ≡ ok aid
convert_auction_id-to_str aid h =
    convert_auction_id-IsAuctionId _ (convert_auction_id_to_str-IsAuctionId aid h)
    ∙ ap ok (unfold convert_auction_id_to_str in value_from-sprintf_d 2 aid (omega arith))

-- A positive value below 2^32 converts back to itself from its decimal print.
pub convert_auction_value-to_string :
    (n : ℕ) → 0 < n → n < 2 ^ 32 → convert_auction_value (to_string n) ≡ ok n
unfolding convert_auction_value verify_value
convert_auction_value-to_string n p h = ground (arith, stol_u32-to_string n h)

-- A minus sign in front of a number from 1 to 2^32 - 1 is accepted as a value: `-n` converts
-- to 2^32 - n.
pub convert_auction_value_negative :
    (n : ℕ) → 0 < n → n < 2 ^ 32 → convert_auction_value (b'-' ∷ to_string n) ≡ ok (2 ^ 32 - n)
unfolding convert_auction_value verify_value stol_u32 stol
convert_auction_value_negative n p h = ground (arith, stol-minus n p h)

-- A number of six digits prints as a user id without padding.
pub to_string-IsUserId : (uid : ℕ) → 100_000 ≤ uid → uid < 1_000_000 → IsUserId (to_string uid)
to_string-IsUserId uid l h = record {
  six = omega (arith, length-to_string-le uid 5 h, length-to_string-ge uid 5 l);
  digits = to_string-IsDigit uid;
  positive = omega (arith, value_from-to_string uid);
}

pub convert_user_id-to_string :
    (uid : ℕ) → 100_000 ≤ uid → uid < 1_000_000 → convert_user_id (to_string uid) ≡ ok uid
convert_user_id-to_string uid l h =
    convert_user_id-IsUserId _ (to_string-IsUserId uid l h) ∙ ap ok (value_from-to_string uid)

-- A shorter number does not: the text without padding is refused.
pub verify_user_id_short : (uid : ℕ) → uid < 100_000 → verify_user_id (to_string uid) ≡ false
unfolding verify_user_id
verify_user_id_short uid h = let short = length-to_string-le uid 4 h in ground arith
