-- ===== src/Protocol/Reader/Fields.antt =====
-- The fields of a message: what is read where a printed field stands.
use proj_rc.Base.{
  ℕ, suc, ge→ltb, ◌≤◌, ◌<◌, ◌^◌, ◌≡◌, true, false, [], ◌∷◌, ◌++◌, arith, length, All, Bytes,
}
use proj_rc.Shared.Outcome.{Outcome, ok}
use proj_rc.Shared.Chars.{isalnum, IsDigit, all_bytes}
use proj_rc.Shared.Decimal.{to_string, stol_u32}
use proj_rc.Shared.Decimal.Laws.{
  ten_pow, to_string-IsDigit, length-to_string-le, stol_u32-to_string,
}
use proj_rc.Shared.Verifications.Laws.{password_size, password_alnum}
use proj_rc.Shared.Verifications.{verify_password}
use proj_rc.Shared.Convert.{
  convert_user_id, convert_user_id_to_str, convert_auction_id, convert_auction_id_to_str,
  convert_auction_value, convert_password,
}
use proj_rc.Shared.Convert.Laws.{
  to_string-IsUserId, convert_user_id_to_str-IsUserId, convert_user_id-to_str,
  convert_user_id-to_string, convert_auction_id_to_str-IsAuctionId, convert_auction_id-to_str,
  convert_auction_value-to_string,
}
use proj_rc.Protocol.Adapter.{Adapter, IsLawful}
use proj_rc.Protocol.Reader.{
  ◌>>=◌, lift, max_file_size, read_file, is_stop, read_string, read_user_id, read_auction_id,
  read_auction_value, read_password,
}
use proj_rc.Protocol.Reader.Yields.{
  Yields, Yields-bind, Yields-lift, read_string-Yields, read_bytes-Yields,
}

-- A word: bytes that `readString` reads through.
abbrev pub IsWord : Bytes → Type 0
IsWord = All (λ c. is_stop c ≡ false)

-- A status text: a word that fits the field and that reads back.
abbrev pub IsText : {S : Type 0} → (Bytes → Outcome S) → Bytes → S → Type 0
IsText parse text status = (length text ≤ 3) × IsWord text × (parse text ≡ ok status)

pub digits-IsWord : (s : Bytes) → All IsDigit s → IsWord s
digits-IsWord [] h = tt
digits-IsWord (c ∷ s) (hc, hs) = (ground arith, digits-IsWord s hs)

pub alnums-IsWord : (s : Bytes) → all_bytes isalnum s ≡ true → IsWord s
unfolding isalnum
alnums-IsWord [] h = tt
alnums-IsWord (c ∷ s) h = (ground arith, alnums-IsWord s (ground arith))

convert_password-valid : (s : Bytes) → verify_password s ≡ true → convert_password s ≡ ok s
unfolding convert_password
convert_password-valid s h = rw h

module _ (a : Adapter) {pending : a.Source → Bytes} (w : IsLawful a pending) where
  open a use {Source}

  -- A word of at most `n` bytes in front of a stop, converted.
  pub field-Yields :
      {A : Type 0} (n : ℕ) (f : Bytes → Outcome A) (x : A) (word : Bytes) (d : ℕ) (s : Source)
      (rest : Bytes)
      → length word ≤ n
      → IsWord word
      → is_stop d ≡ true
      → f word ≡ ok x
      → pending s ≡ word ++ (d ∷ rest)
      → Yields a w (read_string a n >>= λ str. lift (f str)) s x (d ∷ rest)
  field-Yields n f x word d s rest l ws ds e h =
      Yields-bind a w (read_string a n) (λ str. lift (f str)) s
        (read_string-Yields a w n word d s rest l ws ds h)
        λ t k. Yields-lift a w (f word) x t (d ∷ rest) e k

  pub read_user_id-Yields :
      (uid d : ℕ) (s : Source) (rest : Bytes)
      → 100_000 ≤ uid
      → uid < 1_000_000
      → is_stop d ≡ true
      → pending s ≡ to_string uid ++ (d ∷ rest)
      → Yields a w (read_user_id a) s uid (d ∷ rest)
  unfolding read_user_id
  read_user_id-Yields uid d s rest l u ds h =
      let v = to_string-IsUserId uid l u in
      field-Yields 6 convert_user_id uid (to_string uid) d s rest (omega (arith, v.six))
        (digits-IsWord _ v.digits) ds (convert_user_id-to_string uid l u) h

  -- A user id padded to six digits.
  pub read_user_id_padded-Yields :
      (uid d : ℕ) (s : Source) (rest : Bytes)
      → 0 < uid
      → uid < 1_000_000
      → is_stop d ≡ true
      → pending s ≡ convert_user_id_to_str uid ++ (d ∷ rest)
      → Yields a w (read_user_id a) s uid (d ∷ rest)
  unfolding read_user_id
  read_user_id_padded-Yields uid d s rest p u ds h =
      let v = convert_user_id_to_str-IsUserId uid p u in
      field-Yields 6 convert_user_id uid (convert_user_id_to_str uid) d s rest
        (omega (arith, v.six)) (digits-IsWord _ v.digits) ds (convert_user_id-to_str uid p u) h

  pub read_auction_id-Yields :
      (aid d : ℕ) (s : Source) (rest : Bytes)
      → aid < 1000
      → is_stop d ≡ true
      → pending s ≡ convert_auction_id_to_str aid ++ (d ∷ rest)
      → Yields a w (read_auction_id a) s aid (d ∷ rest)
  unfolding read_auction_id
  read_auction_id-Yields aid d s rest u ds h =
      let v = convert_auction_id_to_str-IsAuctionId aid u in
      field-Yields 3 convert_auction_id aid (convert_auction_id_to_str aid) d s rest
        (omega (arith, v.three)) (digits-IsWord _ v.digits) ds (convert_auction_id-to_str aid u) h

  pub read_auction_value-Yields :
      (n d : ℕ) (s : Source) (rest : Bytes)
      → 0 < n
      → n < 1_000_000
      → is_stop d ≡ true
      → pending s ≡ to_string n ++ (d ∷ rest)
      → Yields a w (read_auction_value a) s n (d ∷ rest)
  unfolding read_auction_value
  read_auction_value-Yields n d s rest p u ds h =
      field-Yields 6 convert_auction_value n (to_string n) d s rest (length-to_string-le n 5 u)
        (digits-IsWord _ (to_string-IsDigit n)) ds
        (convert_auction_value-to_string n p (omega arith)) h

  pub read_password-Yields :
      (password : Bytes) (d : ℕ) (s : Source) (rest : Bytes)
      → verify_password password ≡ true
      → is_stop d ≡ true
      → pending s ≡ password ++ (d ∷ rest)
      → Yields a w (read_password a) s password (d ∷ rest)
  unfolding read_password
  read_password-Yields password d s rest v ds h =
      field-Yields 8 convert_password password password d s rest
        (omega (arith, password_size password v))
        (alnums-IsWord password (password_alnum password v)) ds (convert_password-valid password v)
        h

  -- A number converted by `static_cast<uint32_t>(stol(...))`.
  pub number-Yields :
      (k n d : ℕ) (s : Source) (rest : Bytes)
      → n < ten_pow (suc k)
      → n < 2 ^ 32
      → is_stop d ≡ true
      → pending s ≡ to_string n ++ (d ∷ rest)
      → Yields a w (read_string a (suc k) >>= λ str. lift (stol_u32 str)) s n (d ∷ rest)
  number-Yields k n d s rest u v ds h =
      field-Yields (suc k) stol_u32 n (to_string n) d s rest (length-to_string-le n k u)
        (digits-IsWord _ (to_string-IsDigit n)) ds (stol_u32-to_string n v) h

  -- A file of at most 10 MB, whatever its bytes are.
  pub read_file-Yields :
      (content : Bytes) (s : Source) (rest : Bytes)
      → length content ≤ max_file_size
      → pending s ≡ content ++ rest
      → Yields a w (read_file a (length content)) s content rest
  unfolding read_file
  read_file-Yields content s rest l h =
      rw (ge→ltb max_file_size (length content) l) (read_bytes-Yields a w content s rest h)
