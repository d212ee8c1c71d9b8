-- ===== src/Protocol/Reader/Raises.antt =====
-- Where a reader throws: a bind throws what its first part throws, and what its second part throws
-- on what the first one left.
use proj_rc.Base.{ℕ, ◌<◌, ◌≡◌, true, ◌∷◌, ◌++◌, arith, Bytes}
use proj_rc.Shared.Outcome.{Exception, raised, invalid_message}
use proj_rc.Shared.Decimal.{to_string}
use proj_rc.Shared.Decimal.Laws.{to_string-IsDigit, length-to_string-le}
use proj_rc.Shared.Convert.{convert_user_id}
use proj_rc.Shared.Convert.Laws.{verify_user_id_short}
use proj_rc.Protocol.Adapter.{Adapter, IsLawful}
use proj_rc.Protocol.Reader.{Reader, ◌>>=◌, lift, is_stop, read_string, read_user_id}
use proj_rc.Protocol.Reader.Yields.{Yields, read_string-Yields}
use proj_rc.Protocol.Reader.Fields.{digits-IsWord}

convert_user_id-short :
    (uid : ℕ) → uid < 100_000 → convert_user_id (to_string uid) ≡ raised invalid_message
unfolding convert_user_id
convert_user_id-short uid h = rw (verify_user_id_short uid h)

module _ (a : Adapter) {pending : a.Source → Bytes} (w : IsLawful a pending) where
  open a use {Source}

  pub bind-raises :
      {A B : Type 0} (p : Reader Source A) (f : A → Reader Source B) (s : Source) {e : Exception}
      → p s ≡ raised e
      → (p >>= f) s ≡ raised e
  bind-raises p f s h = rw (h, ◌>>=◌)

  pub Yields-raises :
      {A B : Type 0} (p : Reader Source A) (f : A → Reader Source B) (s : Source) {x : A}
      {mid : Bytes} {e : Exception}
      → Yields a w p s x mid
      → ((t : Source) → pending t ≡ mid → f x t ≡ raised e)
      → (p >>= f) s ≡ raised e
  Yields-raises p f s first next = rw (first.result, ◌>>=◌) (next first.after first.left)

  -- A user id below 100000, printed without padding, is not read.
  pub read_user_id-short :
      (uid d : ℕ) (s : Source) (rest : Bytes)
      → uid < 100_000
      → is_stop d ≡ true
      → pending s ≡ to_string uid ++ (d ∷ rest)
      → read_user_id a s ≡ raised invalid_message
  unfolding read_user_id
  read_user_id-short uid d s rest u ds h =
      let size = length-to_string-le uid 4 u in
      Yields-raises (read_string a 6) (λ str. lift (convert_user_id str)) s
        (read_string-Yields a w 6 (to_string uid) d s rest (omega arith)
          (digits-IsWord _ (to_string-IsDigit uid)) ds h)
        λ t k. rw (convert_user_id-short uid u, lift)
