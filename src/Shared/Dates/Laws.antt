-- ===== src/Shared/Dates/Laws.antt =====
-- A date that is printed is read back.
use proj_rc.Base.{
  List, ◌==◌, ℕ, zero, suc, ◌<◌, false, ◌≡◌, ◌∙◌, sym, refl, ap, arith, some, [], ◌∷◌, ◌++◌,
  append-nil, All, Bytes, length, take,
}
use proj_rc.Shared.Chars.{IsDigit, isdigit, isspace}
use proj_rc.Shared.Decimal.{skip_spaces, value_from, to_string, pad}
use proj_rc.Shared.Decimal.Laws.{
  value_from-pad, value_from-to_string, length-pad, pad-IsDigit, to_string-IsDigit, value_from-lt,
  value_from-injective, length-to_string-le, skip_spaces-digits, ten_pow,
}
use proj_rc.Shared.Convert.{Datetime, convert_date_to_str}
use proj_rc.Shared.Dates.{
  Scanned, nothing, blank, byte, scan_digits, scanned_as, scan_signed, scan_int, match_byte,
  match_separator, scan_next, printed, convert_str_to_date, seconds_read, minutes_read, hours_read,
  day_read, month_read, year_read,
}

-- Digits that fill a field of the format.
pub record IsField (w : ℕ) (s : Bytes) : Type 0 where
  pub width : length s ≡ suc w
  pub digits : All IsDigit s

-- The six fields of a date.
pub record IsDate (d : Datetime) : Type 0 where
  pub year : IsField 3 d.year
  pub month : IsField 1 d.month
  pub day : IsField 1 d.day
  pub hours : IsField 1 d.hours
  pub minutes : IsField 1 d.minutes
  pub seconds : IsField 1 d.seconds

scan_digits-append :
    (s rest : Bytes) → All IsDigit s → scan_digits (length s) (s ++ rest) ≡ (s, rest)
unfolding scan_digits isdigit
scan_digits-append [] rest h = refl
scan_digits-append (c ∷ s) rest (k, h) = ground (arith, scan_digits-append s rest h)

read_as : Bytes → Scanned
read_as s = record { is_negative = false; size = value_from 0 s }

scan_int-field :
    (w : ℕ) (s rest : Bytes) → IsField w s → scan_int (suc w) (s ++ rest) ≡ some (read_as s, rest)
unfolding scan_int scan_signed read_as
scan_int-field w [] rest h = absurd (omega (arith, h.width))
scan_int-field w (c ∷ s) rest h =
    let minus : (c == b'-') ≡ false = ground (arith, h.digits.0) in
    let plus : (c == b'+') ≡ false = ground (arith, h.digits.0) in
    let scanned : scan_digits (suc w) (c ∷ (s ++ rest)) ≡ (c ∷ s, rest) =
      ap (λ n. scan_digits n (c ∷ (s ++ rest))) (sym h.width)
      ∙ scan_digits-append (c ∷ s) rest h.digits in
    rw (skip_spaces-digits c (s ++ rest) h.digits.0)
      (rw minus (rw plus (ap (scanned_as false) scanned)))

take-length : {A : Type 0} (n : ℕ) (s : List A) → length s ≡ n → take n s ≡ s
take-length zero [] h = refl
take-length zero (x ∷ s) h = absurd (omega (arith, h))
take-length (suc n) [] h = refl
take-length (suc n) (x ∷ s) h = ap (λ t. x ∷ t) (take-length n s (omega (arith, h)))

printed-field : (w : ℕ) (s : Bytes) → IsField w s → printed (suc w) (read_as s) ≡ s
unfolding read_as
printed-field w s h =
    let v = value_from 0 s in
    let small : v < ten_pow (suc w) =
      omega (arith, value_from-lt 0 s h.digits, ap ten_pow h.width) in
    let wide : length (pad (suc w) (to_string v)) ≡ suc w =
      length-pad (suc w) (to_string v) (length-to_string-le v w small) in
    take-length (suc w) _ wide
    ∙ (value_from-injective 0 0 (pad (suc w) (to_string v)) s (wide ∙ sym h.width)
        (pad-IsDigit (suc w) (to_string v) (to_string-IsDigit v)) h.digits
        (value_from-pad (suc w) (to_string v) ∙ value_from-to_string v)).1

-- A field behind one byte that the format names, and one behind a blank.
scan_next-byte :
    (c w : ℕ) (s rest : Bytes)
    → IsField w s
    → scan_next (byte c) (suc w) (some (c ∷ (s ++ rest))) ≡ some (read_as s, rest)
unfolding scan_next match_separator match_byte
scan_next-byte c w s rest h = ground (arith, scan_int-field w s rest h)

scan_next-blank :
    (w : ℕ) (s rest : Bytes)
    → IsField w s
    → scan_next blank (suc w) (some (b' ' ∷ (s ++ rest))) ≡ some (read_as s, rest)
unfolding scan_next match_separator skip_spaces isspace
scan_next-blank w [] rest h = absurd (omega (arith, h.width))
scan_next-blank w (c ∷ s) rest h =
    rw (skip_spaces-digits c (s ++ rest) h.digits.0) (scan_int-field w (c ∷ s) rest h)

scan_next-nothing :
    (w : ℕ) (s rest : Bytes)
    → IsField w s
    → scan_next nothing (suc w) (some (s ++ rest)) ≡ some (read_as s, rest)
unfolding scan_next match_separator
scan_next-nothing w s rest h = scan_int-field w s rest h

seconds_read-fields :
    (junk : ℕ) (d : Datetime) (rest : Bytes)
    → IsDate d
    → seconds_read junk
        (read_as d.year)
        (read_as d.month)
        (read_as d.day)
        (read_as d.hours)
        (read_as d.minutes)
        (some (read_as d.seconds, rest))
      ≡ d
unfolding seconds_read
seconds_read-fields junk d rest h =
    rw
      (
        printed-field 3 d.year h.year,
        printed-field 1 d.month h.month,
        printed-field 1 d.day h.day,
        printed-field 1 d.hours h.hours,
        printed-field 1 d.minutes h.minutes,
        printed-field 1 d.seconds h.seconds,
      )
      refl

-- A date whose fields are digits, four for the year and two for each other one, converts back
-- to itself from its text, whatever the unset variables hold.
pub convert_str_to_date-to_str :
    (junk : ℕ) (d : Datetime) → IsDate d → convert_str_to_date junk (convert_date_to_str d) ≡ d
unfolding convert_str_to_date convert_date_to_str year_read month_read day_read hours_read
    minutes_read
convert_str_to_date-to_str junk d h =
    let last = scan_next-byte b':' 1 d.seconds [] h.seconds in
    ap (year_read junk) (scan_next-nothing 3 d.year _ h.year)
    ∙ (ap (month_read junk (read_as d.year)) (scan_next-byte b'-' 1 d.month _ h.month)
        ∙ (ap (day_read junk (read_as d.year) (read_as d.month))
              (scan_next-byte b'-' 1 d.day _ h.day)
            ∙ (ap (hours_read junk (read_as d.year) (read_as d.month) (read_as d.day))
                  (scan_next-blank 1 d.hours _ h.hours)
                ∙ (ap
                      (minutes_read junk (read_as d.year) (read_as d.month) (read_as d.day)
                        (read_as d.hours))
                      (scan_next-byte b':' 1 d.minutes _ h.minutes)
                    ∙ (ap
                          (λ q.
                            seconds_read junk (read_as d.year) (read_as d.month) (read_as d.day)
                              (read_as d.hours) (read_as d.minutes)
                              (scan_next (byte b':') 2 (some (b':' ∷ q))))
                          (sym (append-nil d.seconds))
                        ∙ (ap
                              (seconds_read junk (read_as d.year) (read_as d.month) (read_as d.day)
                                (read_as d.hours) (read_as d.minutes))
                              last
                            ∙ seconds_read-fields junk d [] h))))))
