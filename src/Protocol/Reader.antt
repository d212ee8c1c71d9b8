-- ===== src/Protocol/Reader.antt =====
-- The reading primitives of `ProtocolMessage` (protocol.cpp), over any adapter.
pub mod Yields
pub mod Fields
pub mod Phrases
pub mod Raises
pub mod Asset
use proj_rc.Base.{
  ℕ, zero, suc, ◌*◌, Bool, true, false, not, ◌||◌, [], ◌∷◌, ◌++◌, ltb, ◌==◌, if◌then◌else◌, Bytes,
  bytes_eq, codes,
}
use proj_rc.Shared.Outcome.{
  Exception, Outcome, ok, raised, invalid_message, unexpected_message, file_exception,
}
use proj_rc.Shared.Convert.{
  Datetime, convert_user_id, convert_auction_id, convert_auction_value, convert_password,
}
use proj_rc.Protocol.Adapter.{Adapter}

-- Reading code: it moves the source on, or throws.
abbrev pub Reader : Type 0 → Type 0 → Type 0
Reader S A = S → Outcome (A × S)

module _ {S A : Type 0} where
  abbrev pub pure : A → Reader S A
  pure a s = ok (a, s)

  abbrev pub throw : Exception → Reader S A
  throw e s = raised e

  abbrev pub lift : Outcome A → Reader S A
  lift (ok a) s = ok (a, s)
  lift (raised e) s = raised e

infixl 5 ◌>>=◌ ◌>>◌
abbrev pub ◌>>=◌ : {S A B : Type 0} → Reader S A → (A → Reader S B) → Reader S B
◌>>=◌ m f s = elim (m s) [ ok (a, s') ↦ f a s' | raised e ↦ raised e ]

abbrev pub ◌>>◌ : {S B : Type 0} → Reader S (Unit {0}) → Reader S B → Reader S B
m >> k = m >>= λ _. k

abbrev pub max_file_size : ℕ
max_file_size = 10 * 1000 * 1000

-- The bytes at which `readString` stops.
abbrev pub is_stop : ℕ → Bool
is_stop c = c == b' ' || c == 10

module _ (a : Adapter) where
  open a use {Source, get, good, unget}

  -- `char readChar(buffer)`
  unfoldable pub read_char : Reader Source ℕ
  read_char = get >>= λ c s. if good s then ok (c, s) else raised invalid_message

  -- `void readChar(buffer, c)`
  unfoldable pub expect_char : ℕ → Reader Source (Unit {0})
  expect_char c = read_char >>= λ read. if not (read == c) then throw invalid_message else pure tt

  unfoldable pub read_char_equal : ℕ → Reader Source Bool
  read_char_equal c =
      read_char >>= λ read s. if not (read == c) then ok (false, unget s) else ok (true, s)

  -- The branch for the code ERR stands behind a `throw` in the source, and is never reached.
  unfoldable pub read_message_id : Bytes → Reader Source (Unit {0})
  read_message_id [] = pure tt
  read_message_id (k ∷ code) =
      let rest = read_message_id code in
      read_char >>= λ c s.
      if not (good s) || not (c == k) then raised unexpected_message else rest s

  unfoldable pub read_space : Reader Source (Unit {0})
  read_space = expect_char b' '

  unfoldable pub read_delimiter : Reader Source (Unit {0})
  read_delimiter = expect_char 10

  unfoldable pub read_string : ℕ → Reader Source Bytes
  read_string zero = pure []
  read_string (suc n) =
      let rest = read_string n in
      get >>= λ c s.
      if not (good s)
      then raised invalid_message
      else if is_stop c
      then ok ([], unget s)
      else (rest >>= λ str. pure (c ∷ str)) s

  unfoldable pub read_user_id : Reader Source ℕ
  read_user_id = do id_str ← read_string 6; lift (convert_user_id id_str)

  unfoldable pub read_auction_id : Reader Source ℕ
  read_auction_id = do id_str ← read_string 3; lift (convert_auction_id id_str)

  unfoldable pub read_auction_value : Reader Source ℕ
  read_auction_value = do value_str ← read_string 6; lift (convert_auction_value value_str)

  unfoldable pub read_password : Reader Source Bytes
  read_password = do password_str ← read_string 8; lift (convert_password password_str)

  unfoldable pub check_if_over : Reader Source Bool
  check_if_over = read_char >>= λ c s. ok (c == 10, unget s)

  unfoldable pub read_auction_and_state : Reader Source Bytes
  read_auction_and_state = do
    over ← check_if_over
    if over then pure [] else do
      read_space
      auction_str ← read_string 3
      read_space
      state_str ← read_string 1
      let state =
          if bytes_eq state_str (codes "1")
          then codes "ACTIVE"
          else if bytes_eq state_str (codes "0")
          then codes "OVER"
          else state_str
      pure (codes "AID: " ++ (auction_str ++ (codes " --- STATUS: " ++ state)))

  unfoldable pub read_date : Reader Source Datetime
  read_date = do
    year ← read_string 4
    expect_char b'-'
    month ← read_string 2
    expect_char b'-'
    day ← read_string 2
    expect_char b' '
    hours ← read_string 2
    expect_char b':'
    minutes ← read_string 2
    expect_char b':'
    seconds ← read_string 2
    pure (record {
      year = year;
      month = month;
      day = day;
      hours = hours;
      minutes = minutes;
      seconds = seconds;
    })

  -- The loop of `readFile`.
  unfoldable pub read_bytes : ℕ → Reader Source Bytes
  read_bytes zero = pure []
  read_bytes (suc n) =
      let rest = read_bytes n in
      get >>= λ c s.
      if not (good s) then raised invalid_message else (rest >>= λ str. pure (c ∷ str)) s

  unfoldable pub read_file : ℕ → Reader Source Bytes
  read_file max_len = if ltb max_file_size max_len then throw file_exception else read_bytes max_len
