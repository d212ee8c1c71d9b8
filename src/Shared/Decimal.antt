-- ===== src/Shared/Decimal.antt =====
-- Decimal text: `std::to_string` and `<<` of an unsigned number, `sprintf("%0Nd")`, and
-- `std::stol`/`std::stoi`, which skip white space, read a sign and stop at the first other byte.
pub mod Laws
use proj_rc.Base.{
  ℕ, zero, suc, ◌+◌, ◌-◌, ◌*◌, ◌/◌, ◌%◌, ◌^◌, Bool, [], ◌∷◌, ◌++◌, ltb, leb, ◌==◌, if◌then◌else◌,
  length, replicate, Bytes,
}
use proj_rc.Shared.Outcome.{Outcome, ok, raised, invalid_argument, out_of_range, ◌>>=◌}
use proj_rc.Shared.Chars.{isdigit, isspace}

-- The digits of `n` in front of `out`; `n + 1` rounds are more than enough.
unfoldable pub digits : ℕ → ℕ → Bytes → Bytes
digits zero n out = out
digits (suc f) n out =
    let rest = digits f (n / 10) ((b'0' + n % 10) ∷ out) in
    if ltb n 10 then (b'0' + n) ∷ out else rest

unfoldable pub to_string : ℕ → Bytes
unfolding digits
to_string n = digits (suc n) n []

-- Zeros in front, up to the width.
unfoldable pub pad : ℕ → Bytes → Bytes
pad width s = replicate (width - length s) b'0' ++ s

-- `sprintf("%0Nd", n)` of a uint32_t: from 2^31 on, `%d` prints the negative number that the bit
-- pattern stands for.
unfoldable pub sprintf_d : ℕ → ℕ → Bytes
unfolding to_string pad
sprintf_d width n =
    if ltb n (2 ^ 31)
    then pad width (to_string n)
    else b'-' ∷ pad (width - 1) (to_string (2 ^ 32 - n))

-- The number that digits spell behind `n`.
abbrev pub value_from : ℕ → Bytes → ℕ
value_from n [] = n
value_from n (c ∷ s) = value_from (n * 10 + (c - b'0')) s

unfoldable pub skip_spaces : Bytes → Bytes
unfolding isspace
skip_spaces [] = []
skip_spaces (c ∷ s) = if isspace c then skip_spaces s else c ∷ s

unfoldable pub digit_prefix : Bytes → Bytes
unfolding isdigit
digit_prefix [] = []
digit_prefix (c ∷ s) = if isdigit c then c ∷ digit_prefix s else []

-- A `long`: `negsuc n` is -(n + 1).
pub data ℤ : Type 0 where
  pos : ℕ → ℤ
  negsuc : ℕ → ℤ

magnitude : Bytes → Outcome ℕ
magnitude [] = raised invalid_argument
magnitude (c ∷ s) = ok (value_from 0 (c ∷ s))

positive : ℕ → ℕ → Outcome ℤ
positive limit n = if ltb n limit then ok (pos n) else raised out_of_range

negative : ℕ → ℕ → Outcome ℤ
negative limit n =
    if n == 0 then ok (pos 0) else if leb n limit then ok (negsuc (n - 1)) else raised out_of_range

signed : ℕ → Bytes → Outcome ℤ
unfolding magnitude positive negative digit_prefix
signed limit [] = raised invalid_argument
signed limit (c ∷ s) =
    if c == b'-'
    then magnitude (digit_prefix s) >>= negative limit
    else if c == b'+'
    then magnitude (digit_prefix s) >>= positive limit
    else magnitude (digit_prefix (c ∷ s)) >>= positive limit

unfoldable pub stol : Bytes → Outcome ℤ
unfolding signed skip_spaces
stol s = signed (2 ^ 63) (skip_spaces s)

unfoldable pub stoi : Bytes → Outcome ℤ
unfolding signed skip_spaces
stoi s = signed (2 ^ 31) (skip_spaces s)

-- `static_cast<uint32_t>` of a `long`.
unfoldable pub to_u32 : ℤ → ℕ
to_u32 (pos n) = n % 2 ^ 32
to_u32 (negsuc n) = 2 ^ 32 - 1 - n % 2 ^ 32

abbrev pub map_ok : (ℤ → ℕ) → Outcome ℤ → Outcome ℕ
map_ok f r = r >>= λ z. ok (f z)

-- `static_cast<uint32_t>(std::stol(s))`
unfoldable pub stol_u32 : Bytes → Outcome ℕ
unfolding stol to_u32
stol_u32 s = map_ok to_u32 (stol s)
