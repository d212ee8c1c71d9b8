-- ===== src/Shared/Dates.antt =====
-- `convert_str_to_date` (utils.cpp): what it uses of `sscanf` and `sprintf`.
pub mod Laws
use proj_rc.Base.{
  ℕ, zero, suc, ◌-◌, Bool, true, false, Option, none, some, List, [], ◌∷◌, ◌++◌, ◌==◌,
  if◌then◌else◌, Bytes, take,
}
use proj_rc.Shared.Chars.{isdigit}
use proj_rc.Shared.Decimal.{skip_spaces, value_from, to_string, pad}
use proj_rc.Shared.Convert.{Datetime}

-- An `int` that `%0Nd` reads or writes: its sign and its size.
pub record Scanned : Type 0 where
  pub is_negative : Bool
  pub size : ℕ

-- At most `w` digits, and what stands behind them.
unfoldable pub scan_digits : ℕ → Bytes → Bytes × Bytes
scan_digits zero s = ([], s)
scan_digits (suc w) [] = ([], [])
scan_digits (suc w) (c ∷ s) =
    let (ds, rest) = scan_digits w s in if isdigit c then (c ∷ ds, rest) else ([], c ∷ s)

abbrev pub scanned_as : Bool → Bytes × Bytes → Option (Scanned × Bytes)
scanned_as neg ([], rest) = none
scanned_as neg (d ∷ ds, rest) =
    some (record { is_negative = neg; size = value_from 0 (d ∷ ds) }, rest)

unfoldable pub scan_signed : ℕ → Bytes → Option (Scanned × Bytes)
unfolding scan_digits
scan_signed w [] = none
scan_signed w (c ∷ s) =
    if c == b'-'
    then scanned_as true (scan_digits (w - 1) s)
    else if c == b'+'
    then scanned_as false (scan_digits (w - 1) s)
    else scanned_as false (scan_digits w (c ∷ s))

-- `%0Nd` reads behind white space; the sign counts as one of the N bytes.
unfoldable pub scan_int : ℕ → Bytes → Option (Scanned × Bytes)
unfolding scan_signed skip_spaces
scan_int w s = scan_signed w (skip_spaces s)

-- What stands in front of a number of the format: nothing, one byte, or any white space.
pub data Separator : Type 0 where
  nothing blank : Separator
  byte : ℕ → Separator

unfoldable pub match_byte : ℕ → Bytes → Option Bytes
match_byte c [] = none
match_byte c (d ∷ s) = if d == c then some s else none

unfoldable pub match_separator : Separator → Bytes → Option Bytes
unfolding match_byte skip_spaces
match_separator nothing s = some s
match_separator blank s = some (skip_spaces s)
match_separator (byte c) s = match_byte c s

-- The next number of the format: its text ends the scan where it does not match.
unfoldable pub scan_next : Separator → ℕ → Option Bytes → Option (Scanned × Bytes)
unfolding match_separator scan_int
scan_next sep w none = none
scan_next sep w (some s) = elim (match_separator sep s) [ none ↦ none | some t ↦ scan_int w t ]

abbrev pub behind : Option (Scanned × Bytes) → Option Bytes
behind none = none
behind (some (n, s)) = some s

-- A variable that `sscanf` has not written to keeps the number `junk`.
abbrev pub number : ℕ → Option (Scanned × Bytes) → Scanned
number junk none = record { is_negative = false; size = junk }
number junk (some (n, s)) = n

-- `sprintf(buffer, "%0Nd", n)` and `std::string(buffer, N)`. A number of ten digits or more, which
-- only an unset variable holds, would overrun the buffer; that is not modelled.
abbrev pub printed : ℕ → Scanned → Bytes
printed w n =
    if n.is_negative
    then take w (b'-' ∷ pad (w - 1) (to_string n.size))
    else take w (pad w (to_string n.size))

-- What `convert_str_to_date` makes of the last number of the format when the five numbers in front of
-- it have been scanned, of the last two when four have been, and so on.
unfoldable pub seconds_read :
    ℕ → Scanned → Scanned → Scanned → Scanned → Scanned → Option (Scanned × Bytes) → Datetime
seconds_read junk year month day hours minutes seconds = record {
  year = printed 4 year;
  month = printed 2 month;
  day = printed 2 day;
  hours = printed 2 hours;
  minutes = printed 2 minutes;
  seconds = printed 2 (number junk seconds);
}

unfoldable pub minutes_read :
    ℕ → Scanned → Scanned → Scanned → Scanned → Option (Scanned × Bytes) → Datetime
minutes_read junk year month day hours minutes =
    seconds_read junk year month day hours (number junk minutes)
      (scan_next (byte b':') 2 (behind minutes))

unfoldable pub hours_read : ℕ → Scanned → Scanned → Scanned → Option (Scanned × Bytes) → Datetime
hours_read junk year month day hours =
    minutes_read junk year month day (number junk hours) (scan_next (byte b':') 2 (behind hours))

unfoldable pub day_read : ℕ → Scanned → Scanned → Option (Scanned × Bytes) → Datetime
day_read junk year month day =
    hours_read junk year month (number junk day) (scan_next blank 2 (behind day))

unfoldable pub month_read : ℕ → Scanned → Option (Scanned × Bytes) → Datetime
month_read junk year month =
    day_read junk year (number junk month) (scan_next (byte b'-') 2 (behind month))

unfoldable pub year_read : ℕ → Option (Scanned × Bytes) → Datetime
year_read junk year = month_read junk (number junk year) (scan_next (byte b'-') 2 (behind year))

unfoldable pub convert_str_to_date : ℕ → Bytes → Datetime
convert_str_to_date junk str = year_read junk (scan_next nothing 4 (some str))
