-- ===== src/Database/Clock.antt =====
-- The time of day as database.cpp uses it: `time`, `gmtime`, and 32-bit arithmetic on seconds.
use proj_rc.Base.{ℕ, ◌+◌, ◌-◌, ◌%◌, ◌^◌, ◌++◌, length, replicate, Bytes, codes}
use proj_rc.Shared.Decimal.{to_string, pad}

-- `struct tm`, without the fields that are not used.
pub record Tm : Type 0 where
  pub tm_year : ℕ
  pub tm_mon : ℕ
  pub tm_mday : ℕ
  pub tm_hour : ℕ
  pub tm_min : ℕ
  pub tm_sec : ℕ

-- What `time` returns during a call of an operation, which is taken to last less than a second, and
-- the calendar of the C library.
pub record Clock : Type 0 where
  pub now : ℕ
  pub gmtime : ℕ → Tm

-- uint32_t arithmetic.
abbrev pub u32 : ℕ → ℕ
u32 n = n % 2 ^ 32

abbrev pub add32 : ℕ → ℕ → ℕ
add32 a b = (a + b) % 2 ^ 32

-- `a - b`, which wraps.
abbrev pub sub32 : ℕ → ℕ → ℕ
sub32 a b = (a + (2 ^ 32 - b)) % 2 ^ 32

-- `%4u`
abbrev pub pad_spaces : ℕ → Bytes → Bytes
pad_spaces width s = replicate (width - length s) b' ' ++ s

-- `YYYY-MM-DD`
unfoldable pub day_text : Tm → Bytes
unfolding pad
day_text t =
    pad_spaces 4 (to_string (t.tm_year + 1900))
    ++ (codes "-"
        ++ (pad 2 (to_string (t.tm_mon + 1)) ++ (codes "-" ++ pad 2 (to_string t.tm_mday))))

-- `HH:MM:SS`
unfoldable pub hour_text : Tm → Bytes
unfolding pad
hour_text t =
    pad 2 (to_string t.tm_hour)
    ++ (codes ":" ++ (pad 2 (to_string t.tm_min) ++ (codes ":" ++ pad 2 (to_string t.tm_sec))))

unfoldable pub date_text : Tm → Bytes
unfolding day_text hour_text
date_text t = day_text t ++ (codes " " ++ hour_text t)

unfoldable pub get_current_date : Clock → Bytes
unfolding date_text
get_current_date clock = date_text (clock.gmtime clock.now)
