-- ===== src/Protocol/Reader/Yields.antt =====
-- What a reader does on a source that still holds the right bytes.
use proj_rc.Base.{
  ℕ, zero, suc, ◌≤◌, ◌≡◌, refl, true, false, [], ◌∷◌, ◌++◌, arith, length, All, Bytes, ==-refl,
}
use proj_rc.Shared.Outcome.{Outcome, ok}
use proj_rc.Protocol.Adapter.{Adapter, IsLawful}
use proj_rc.Protocol.Reader.{
  Reader, ◌>>=◌, ◌>>◌, pure, lift, is_stop, read_char, expect_char, read_message_id, read_space,
  read_delimiter, read_string, read_bytes,
}

module _ (a : Adapter) {pending : a.Source → Bytes} (w : IsLawful a pending) where
  open a use {Source, get, good, unget}
  open w use {get_next, get_end}

  -- On `s` the reader `p` returns `x` and leaves `rest` to be read.
  pub record Yields {A : Type 0} (p : Reader Source A) (s : Source) (x : A) (rest : Bytes)
      : Type 0 where
    pub after : Source
    pub result : p s ≡ ok (x, after)
    pub left : pending after ≡ rest

  pub Yields-pure :
      {A : Type 0} (x : A) (s : Source) (rest : Bytes) → pending s ≡ rest → Yields (pure x) s x rest
  Yields-pure x s rest h = record { after = s; result = refl; left = h }

  pub Yields-bind :
      {A B : Type 0} (p : Reader Source A) (f : A → Reader Source B) (s : Source) {x : A} {y : B}
      {mid rest : Bytes}
      → Yields p s x mid
      → ((t : Source) → pending t ≡ mid → Yields (f x) t y rest)
      → Yields (p >>= f) s y rest
  Yields-bind p f s {x} {y} first next =
      let second = next first.after first.left in
      record {
        after = second.after;
        result = rw (first.result, ◌>>=◌) second.result;
        left = second.left;
      }

  pub Yields-then :
      {B : Type 0} (p : Reader Source (Unit {0})) (q : Reader Source B) (s : Source) {y : B}
      {mid rest : Bytes}
      → Yields p s tt mid
      → ((t : Source) → pending t ≡ mid → Yields q t y rest)
      → Yields (p >> q) s y rest
  Yields-then p q s first next = Yields-bind p (λ _. q) s first next

  pub Yields-lift :
      {A : Type 0} (r : Outcome A) (x : A) (s : Source) (rest : Bytes)
      → r ≡ ok x
      → pending s ≡ rest
      → Yields (lift r) s x rest
  Yields-lift r x s rest e h = record { after = s; result = rw (e, lift); left = h }

  pub read_char-Yields :
      (s : Source) (c : ℕ) (rest : Bytes) → pending s ≡ c ∷ rest → Yields (read_char a) s c rest
  unfolding read_char
  read_char-Yields s c rest h =
      let d = get_next s c rest h in
      record { after = d.after; result = rw (d.delivered, ◌>>=◌, d.stays_good); left = d.left }

  pub expect_char-Yields :
      (c : ℕ) (s : Source) (rest : Bytes)
      → pending s ≡ c ∷ rest
      → Yields (expect_char a c) s tt rest
  unfolding expect_char
  expect_char-Yields c s rest h =
      Yields-bind (read_char a) _ s (read_char-Yields s c rest h)
        λ t k. record { after = t; result = rw (==-refl c); left = k }

  pub read_space-Yields :
      (s : Source) (rest : Bytes) → pending s ≡ b' ' ∷ rest → Yields (read_space a) s tt rest
  unfolding read_space
  read_space-Yields = expect_char-Yields b' '

  pub read_delimiter-Yields :
      (s : Source) (rest : Bytes) → pending s ≡ 10 ∷ rest → Yields (read_delimiter a) s tt rest
  unfolding read_delimiter
  read_delimiter-Yields = expect_char-Yields 10

  pub read_message_id-Yields :
      (code : Bytes) (s : Source) (rest : Bytes)
      → pending s ≡ code ++ rest
      → Yields (read_message_id a code) s tt rest
  unfolding read_message_id read_char
  read_message_id-Yields [] s rest h = Yields-pure tt s rest h
  read_message_id-Yields (k ∷ code) s rest h =
      let c = get_next s k (code ++ rest) h in
      let later = read_message_id-Yields code c.after rest c.left in
      record {
        after = later.after;
        result = rw (c.delivered, ◌>>=◌, c.stays_good, c.stays_good, ==-refl k) later.result;
        left = later.left;
      }

  -- `read_string n` on a lawful source where a word of at most `n` bytes, none of them a
  -- space or newline, stands in front of a space or newline yields the word, and leaves that
  -- space or newline to be read.
  pub read_string-Yields :
      (n : ℕ) (word : Bytes) (d : ℕ) (s : Source) (rest : Bytes)
      → length word ≤ n
      → All (λ c. is_stop c ≡ false) word
      → is_stop d ≡ true
      → pending s ≡ word ++ (d ∷ rest)
      → Yields (read_string a n) s word (d ∷ rest)
  unfolding read_string
  read_string-Yields zero [] d s rest l ws ds h = Yields-pure [] s (d ∷ rest) h
  read_string-Yields zero (c ∷ word) d s rest l ws ds h = absurd (omega arith)
  read_string-Yields (suc n) [] d s rest l ws ds h =
      let c = get_next s d rest h in
      record {
        after = unget c.after;
        result = rw (c.delivered, ◌>>=◌, c.stays_good, ds);
        left = c.restored;
      }
  read_string-Yields (suc n) (k ∷ word) d s rest l (wk, ws) ds h =
      let c = get_next s k (word ++ (d ∷ rest)) h in
      let later = read_string-Yields n word d c.after rest (omega arith) ws ds c.left in
      record {
        after = later.after;
        result = rw (c.delivered, ◌>>=◌, c.stays_good, wk, later.result);
        left = later.left;
      }

  -- A file is read byte by byte, whatever its bytes are.
  pub read_bytes-Yields :
      (content : Bytes) (s : Source) (rest : Bytes)
      → pending s ≡ content ++ rest
      → Yields (read_bytes a (length content)) s content rest
  unfolding read_bytes
  read_bytes-Yields [] s rest h = Yields-pure [] s rest h
  read_bytes-Yields (k ∷ content) s rest h =
      let c = get_next s k (content ++ rest) h in
      let later = read_bytes-Yields content c.after rest c.left in
      record {
        after = later.after;
        result = rw (c.delivered, ◌>>=◌, c.stays_good, later.result);
        left = later.left;
      }
