-- ===== src/Shared/Verifications/Laws.antt =====
-- What the verifications accept.
use proj_rc.Base.{
  ◌<◌, ◌≡◌, ◌≢◌, true, false, arith, length, All, Bytes, bytes_eq, codes, bytes_eq→eq, Bool-cases,
  inl, inr, ap,
}
use proj_rc.Shared.Chars.{IsDigit, digits→All, All→digits, isalnum, all_bytes}
use proj_rc.Shared.Decimal.{value_from}
use proj_rc.Shared.Decimal.Laws.{value_from-injective}
use proj_rc.Shared.Verifications.{verify_user_id, verify_auction_id, verify_password}

-- Six digits that spell a positive number.
pub record IsUserId (s : Bytes) : Type 0 where
  pub six : length s ≡ 6
  pub digits : All IsDigit s
  pub positive : 0 < value_from 0 s

pub record IsAuctionId (s : Bytes) : Type 0 where
  pub three : length s ≡ 3
  pub digits : All IsDigit s

positive→ne_zeros : (s : Bytes) → 0 < value_from 0 s → bytes_eq s (codes "000000") ≡ false
positive→ne_zeros s h = elim (Bool-cases (bytes_eq s (codes "000000"))) [
  | inl e ↦ absurd (omega (arith, ap (value_from 0) (bytes_eq→eq s (codes "000000") e)))
  | inr e ↦ e
]

ne_zeros→positive :
    (s : Bytes)
    → length s ≡ 6
    → All IsDigit s
    → bytes_eq s (codes "000000") ≡ false
    → value_from 0 s ≢ 0
ne_zeros→positive s six ds ne z =
    let same = value_from-injective 0 0 s (codes "000000") six ds (omega arith) z in
    cc (ap (λ t. bytes_eq t (codes "000000")) same.1, ne)

pub verify_user_id-IsUserId : (s : Bytes) → verify_user_id s ≡ true → IsUserId s
unfolding verify_user_id
verify_user_id-IsUserId s h =
    let six : length s ≡ 6 = ground arith in
    let ne : bytes_eq s (codes "000000") ≡ false = ground arith in
    let ds : All IsDigit s = digits→All s (ground arith) in
    record { six = six; digits = ds; positive = omega (arith, ne_zeros→positive s six ds ne) }

pub IsUserId-verify : (s : Bytes) → IsUserId s → verify_user_id s ≡ true
unfolding verify_user_id
IsUserId-verify s h = ground (arith, positive→ne_zeros s h.positive, All→digits s h.digits)

pub verify_auction_id-IsAuctionId : (s : Bytes) → verify_auction_id s ≡ true → IsAuctionId s
unfolding verify_auction_id
verify_auction_id-IsAuctionId s h = record {
  three = ground arith;
  digits = digits→All s (ground arith);
}

pub IsAuctionId-verify : (s : Bytes) → IsAuctionId s → verify_auction_id s ≡ true
unfolding verify_auction_id
IsAuctionId-verify s h = ground (arith, All→digits s h.digits)

-- A password has eight bytes, letters and digits.
pub password_size : (s : Bytes) → verify_password s ≡ true → length s ≡ 8
unfolding verify_password
password_size s h = ground arith

pub password_alnum : (s : Bytes) → verify_password s ≡ true → all_bytes isalnum s ≡ true
unfolding verify_password
password_alnum s h = ground arith
