-- ===== src/Database/Auctions/Files/Laws.antt =====
-- What the functions that create the files of an auction write, the functions that read them read.
use proj_rc.Base.{
  ℕ, ◌+◌, ◌-◌, ◌^◌, ◌≤◌, ◌<◌, true, false, ◌≡◌, ◌∙◌, sym, refl, ap, arith, some, List, [], ◌∷◌,
  ◌++◌, if◌then◌else◌, Bool, Bool-cases, inl, inr, append_assoc, All, All-append, Bytes, length,
  ltb,
}
use proj_rc.Shared.Chars.{IsDigit, isspace}
use proj_rc.Shared.Outcome.{Outcome, ok}
use proj_rc.Shared.Outcome
use proj_rc.Shared.Decimal.{to_string, pad, stol_u32}
use proj_rc.Shared.Decimal.Laws.{
  to_string-IsDigit, pad-IsDigit, length-to_string_pos, length-to_string-ge, stol_u32-to_string,
}
use proj_rc.Database.Clock.{
  Tm, Clock, day_text, hour_text, date_text, get_current_date, pad_spaces, u32, sub32, add32,
}
use proj_rc.Database.Files.{FileSystem, read_file, write_file, exists}
use proj_rc.Database.Files.Laws.{read_file-write_file}
use proj_rc.Database.Files.Paths.{FilePath, start_file, end_file}
use proj_rc.Database.Auctions.Words.{c_str}
use proj_rc.Database.Auctions.Words.Laws.{IsPlain, IsPlainByte, joined, line_words-joined, All-map}
use proj_rc.Database.Auctions.Infos.{StartInfo, file_words, start_of, end_of, get_start, get_end}
use proj_rc.Database.Auctions.Files.{
  EndCreation, start_text, create_start_file, end_text, end_from, end_written, create_end_file,
}

digit-IsPlainByte : (c : ℕ) → IsDigit c → IsPlainByte c
unfolding isspace
digit-IsPlainByte c (l, h) = (ground arith, ground arith)

digits-plain : (s : Bytes) → All IsDigit s → All IsPlainByte s
digits-plain s h = All-map digit-IsPlainByte s h

number-plain : (n : ℕ) → All IsPlainByte (to_string n)
number-plain n = digits-plain _ (to_string-IsDigit n)

two-plain : (n : ℕ) → All IsPlainByte (pad 2 (to_string n))
two-plain n = digits-plain _ (pad-IsDigit 2 _ (to_string-IsDigit n))

pub to_string-IsPlain : (n : ℕ) → IsPlain (to_string n)
to_string-IsPlain n = (length-to_string_pos n, number-plain n)

-- The year of a `struct tm` has at least four digits, so that `%4u` pads it with nothing.
year-plain : (t : Tm) → All IsPlainByte (pad_spaces 4 (to_string (t.tm_year + 1900)))
year-plain t =
    let four : 4 - length (to_string (t.tm_year + 1900)) ≡ 0 =
      omega (arith, length-to_string-ge (t.tm_year + 1900) 3 (omega arith)) in
    rw four (number-plain (t.tm_year + 1900))

middle-nonempty : (s : Bytes) (c : ℕ) (t : Bytes) → 0 < length (s ++ (c ∷ t))
middle-nonempty [] c t = omega arith
middle-nonempty (d ∷ s) c t = omega (arith, middle-nonempty s c t)

pub day_text-IsPlain : (t : Tm) → IsPlain (day_text t)
unfolding day_text isspace
day_text-IsPlain t = (
  middle-nonempty (pad_spaces 4 (to_string (t.tm_year + 1900))) _ _,
  All-append IsPlainByte _ _ (year-plain t) (
    (refl, refl),
    All-append IsPlainByte _ _ (two-plain (t.tm_mon + 1)) ((refl, refl), two-plain t.tm_mday),
  ),
)

pub hour_text-IsPlain : (t : Tm) → IsPlain (hour_text t)
unfolding hour_text isspace
hour_text-IsPlain t = (
  middle-nonempty (pad 2 (to_string t.tm_hour)) _ _,
  All-append IsPlainByte _ _ (two-plain t.tm_hour) (
    (refl, refl),
    All-append IsPlainByte _ _ (two-plain t.tm_min) ((refl, refl), two-plain t.tm_sec),
  ),
)

pub file_words-written :
    (n : ℕ) (p : FilePath) (fs : FileSystem) (w : Bytes) (ws : List Bytes)
    → read_file p fs ≡ some (c_str (joined (w ∷ ws)))
    → All IsPlain (w ∷ ws)
    → length (joined (w ∷ ws)) < n
    → file_words n p fs ≡ some (w ∷ ws)
file_words-written n p fs w ws found h fits =
    rw (file_words, found) (line_words-joined n w ws h fits)

-- The fields that `Open` writes are words, and the line fits the buffer that reads it.
pub record IsStartLine (clock : Clock) (user_id name asset_fname start_value timeactive : Bytes)
    : Type 0 where
  pub user_word : IsPlain user_id
  pub name_word : IsPlain name
  pub asset_word : IsPlain asset_fname
  pub value_word : IsPlain start_value
  pub time_word : IsPlain timeactive
  pub now_fits : clock.now < 2 ^ 32
  pub fits : length (start_text clock user_id name asset_fname start_value timeactive) < 200

-- The words of the line.
abbrev start_words : Clock → Bytes → Bytes → Bytes → Bytes → Bytes → List Bytes
start_words clock u n f v t =
    u
    ∷ n
    ∷ f
    ∷ v
    ∷ t
    ∷ day_text (clock.gmtime clock.now)
    ∷ hour_text (clock.gmtime clock.now)
    ∷ to_string clock.now
    ∷ []

start_text-joined :
    (clock : Clock) (u n f v t : Bytes)
    → start_text clock u n f v t ≡ joined (start_words clock u n f v t)
unfolding start_text get_current_date date_text joined
start_text-joined clock u n f v t = simp append_assoc

start_written :
    (clock : Clock) (a_id u n f v t : Bytes) (fs fs' : FileSystem)
    → create_start_file clock a_id u n f v t fs ≡ (true, fs')
    → write_file (start_file a_id) (c_str (start_text clock u n f v t)) fs ≡ (true, fs')
unfolding create_start_file
start_written clock a_id u n f v t fs fs' h = ground (arith, h)

-- When CreateStartFile has made a START file of plain words on a line below 200 bytes, before
-- the second 2^32, GetStart reads from the new tree exactly the fields, the date and the
-- second.
pub get_start-create_start_file :
    (clock : Clock) (a_id user_id name asset_fname start_value timeactive : Bytes)
    (fs fs' : FileSystem)
    → IsStartLine clock user_id name asset_fname start_value timeactive
    → create_start_file clock a_id user_id name asset_fname start_value timeactive fs ≡ (true, fs')
    → get_start a_id fs'
      ≡ ok (
          some (record {
            user_id = user_id;
            name = name;
            asset_fname = asset_fname;
            start_value = start_value;
            timeactive = timeactive;
            current_date = get_current_date clock;
            current_time = clock.now;
          }))
unfolding get_start start_of get_current_date date_text
get_start-create_start_file clock a_id u n f v t fs fs' l h =
    let text = start_text-joined clock u n f v t in
    let found : read_file (start_file a_id) fs'
        ≡ some (c_str (joined (start_words clock u n f v t))) =
      read_file-write_file _ _ fs fs' (start_written clock a_id u n f v t fs fs' h)
      ∙ ap (λ q. some (c_str q)) text in
    let tm = clock.gmtime clock.now in
    let got : file_words 200 (start_file a_id) fs' ≡ some (start_words clock u n f v t) =
      file_words-written 200 (start_file a_id) fs' _ _ found
        (
          l.user_word,
          (
            l.name_word,
            (
              l.asset_word,
              (
                l.value_word,
                (
                  l.time_word,
                  (day_text-IsPlain tm, (hour_text-IsPlain tm, (to_string-IsPlain clock.now, tt))),
                ),
              ),
            ),
          ),
        )
        (rw (sym text) l.fits) in
    rw (got, stol_u32-to_string clock.now l.now_fits, Outcome.◌>>=◌) refl

-- The words of an end or of the end of a bid: a date, an hour and a number.
abbrev end_words : Tm → ℕ → List Bytes
end_words t n = day_text t ∷ hour_text t ∷ to_string n ∷ []

-- The time of day and the number of seconds that CreateEndFile writes.
abbrev pub end_moment : Clock → StartInfo → ℕ → Tm × ℕ
end_moment clock start supposed_end =
    let time_passed = sub32 (u32 clock.now) start.current_time in
    if ltb supposed_end time_passed
    then (clock.gmtime (add32 start.current_time supposed_end), supposed_end)
    else (clock.gmtime clock.now, time_passed)

end_text-joined :
    (clock : Clock) (start : StartInfo) (n : ℕ)
    → end_text clock start n
      ≡ joined (end_words (end_moment clock start n).0 (end_moment clock start n).1)
unfolding end_text get_current_date date_text joined
end_text-joined clock start n =
    elim (Bool-cases (ltb n (sub32 (u32 clock.now) start.current_time))) [
      | inl e ↦ rw e (simp append_assoc)
      | inr e ↦ rw e (simp append_assoc)
    ]

end_moment-le : (clock : Clock) (start : StartInfo) (n : ℕ) → (end_moment clock start n).1 ≤ n
end_moment-le clock start n = ground arith

end_written-created :
    (r : Bool × FileSystem) (fs' : FileSystem)
    → end_written r ≡ (EndCreation.created, fs')
    → r ≡ (true, fs')
unfolding end_written
end_written-created (true, fs) fs' h = ap (λ q. (true, q)) (ap (λ q. q.1) h)
end_written-created (false, fs) fs' h = absurd cc

-- What CreateEndFile has done when it reports that it has created the file.
pub end_created :
    (clock : Clock) (a_id : Bytes) (fs fs' : FileSystem) (start : StartInfo) (n : ℕ)
    → get_start a_id fs ≡ ok (some start)
    → stol_u32 start.timeactive ≡ ok n
    → create_end_file clock a_id fs ≡ ok (EndCreation.created, fs')
    → write_file (end_file a_id) (c_str (end_text clock start n)) fs ≡ (true, fs')
unfolding create_end_file end_from end_written
end_created clock a_id fs fs' start n s t h = end_written-created _ fs' (ground (arith, h, s, t))

-- When CreateEndFile has made the END file of an auction that is to run `n` seconds, with `n`
-- below 2^32 and a line below 200 bytes, GetEnd reads from the new tree the date and the
-- seconds of `end_moment`, which are at most `n`, and the END file exists.
pub get_end-create_end_file :
    (clock : Clock) (a_id : Bytes) (fs fs' : FileSystem) (start : StartInfo) (n : ℕ)
    → n < 2 ^ 32
    → length (end_text clock start n) < 200
    → get_start a_id fs ≡ ok (some start)
    → stol_u32 start.timeactive ≡ ok n
    → create_end_file clock a_id fs ≡ ok (EndCreation.created, fs')
    → (get_end (end_file a_id) fs'
        ≡ ok (
            some (record {
              end_date = date_text (end_moment clock start n).0;
              end_time = (end_moment clock start n).1;
            })))
      × ((end_moment clock start n).1 ≤ n)
      × (exists (end_file a_id) fs' ≡ true)
unfolding get_end end_of date_text
get_end-create_end_file clock a_id fs fs' start n small fits s t h =
    let (tm, seconds) = end_moment clock start n in
    let text = end_text-joined clock start n in
    let found : read_file (end_file a_id) fs' ≡ some (c_str (joined (end_words tm seconds))) =
      read_file-write_file _ _ fs fs' (end_created clock a_id fs fs' start n s t h)
      ∙ ap (λ q. some (c_str q)) text in
    let got : file_words 200 (end_file a_id) fs' ≡ some (end_words tm seconds) =
      file_words-written 200 (end_file a_id) fs' _ _ found
        (day_text-IsPlain tm, (hour_text-IsPlain tm, (to_string-IsPlain seconds, tt)))
        (rw (sym text) fits) in
    let le : seconds ≤ n = end_moment-le clock start n in
    (
      rw (got, stol_u32-to_string seconds (omega (arith, le)), Outcome.◌>>=◌) refl,
      le,
      ground (arith, found),
    )
