-- ===== src/Protocol/Adapter/Stream.antt =====
-- `StreamMessage` (protocol.hpp): a message in a `std::stringstream`, as a UDP datagram is read.
use proj_rc.Base.{
  ℕ, ◌-◌, ◌≡◌, refl, inr, Bool, true, false, not, [], ◌∷◌, ◌++◌, arith, if◌then◌else◌, length, take,
  drop, replicate, ltb, Bytes, Bool-cases, inl, ◌∙◌, ap,
}
use proj_rc.Shared.Outcome.{Outcome, ok}
use proj_rc.Protocol.Adapter.{Adapter, Delivers, Fails, IsLawful}

-- The bytes behind the read position, nearest first, those in front of it, and the state flags:
-- `is_good` is false once eofbit and failbit, or badbit, are set.
pub record Stream : Type 0 where
  pub behind : Bytes
  pub rest : Bytes
  pub is_good : Bool

abbrev pub of_bytes : Bytes → Stream
of_bytes s = record { behind = []; rest = s; is_good = true }

-- At the end `get` returns EOF, which the cast to `char` makes 255.
get_from : Stream → Bytes → ℕ × Stream
get_from s [] = (255, record s { is_good = false })
get_from s (c ∷ r) = (c, record s { behind = c ∷ s.behind; rest = r })

unfoldable pub get : Stream → Outcome (ℕ × Stream)
unfolding get_from
get s = if s.is_good then ok (get_from s s.rest) else ok (255, s)

unget_to : Stream → Bytes → Stream
unget_to s [] = record s { is_good = false }
unget_to s (c ∷ b) = record s { behind = b; rest = c ∷ s.rest }

unfoldable pub unget : Stream → Stream
unfolding unget_to
unget s = if s.is_good then unget_to s s.behind else s

push_all : Bytes → Bytes → Bytes
push_all [] b = b
push_all (c ∷ r) b = push_all r (c ∷ b)

-- `read(&str[0], n)` into a string of `n` zero bytes.
unfoldable pub getn : ℕ → Stream → Outcome (Bytes × Stream)
unfolding push_all
getn n s =
    if not s.is_good
    then ok (replicate n 0, s)
    else if ltb (length s.rest) n
    then ok (
      s.rest ++ replicate (n - length s.rest) 0,
      record { behind = push_all s.rest s.behind; rest = []; is_good = false },
    )
    else ok (
      take n s.rest,
      record s { behind = push_all (take n s.rest) s.behind; rest = drop n s.rest },
    )

abbrev pub StreamMessage : Adapter
StreamMessage = record {
  Source = Stream;
  get = get;
  good = λ s. s.is_good;
  unget = unget;
  getn = getn;
}

abbrev pub to_come : Stream → Bytes
to_come s = if s.is_good then s.rest else []

get_next_from :
    (s : Stream) (c : ℕ) (r rest : Bytes)
    → s.is_good ≡ true
    → s.rest ≡ r
    → r ≡ c ∷ rest
    → Delivers StreamMessage to_come s c rest
unfolding get unget
get_next_from s c [] rest g e h = cc
get_next_from s c (d ∷ r) rest g e h = record {
  after = record s { behind = c ∷ s.behind; rest = rest };
  delivered = ground arith;
  stays_good = g;
  left = rw g;
  restored = rw g refl;
}

get_from-nil :
    (s : Stream) (r : Bytes) → r ≡ [] → get_from s r ≡ (255, record s { is_good = false })
unfolding get_from
get_from-nil s [] h = refl
get_from-nil s (c ∷ r) h = cc

get_end_from :
    (s : Stream) (r : Bytes) → s.rest ≡ r → (s.is_good ≡ true → r ≡ []) → Fails StreamMessage s
unfolding get
get_end_from s r e h = elim (Bool-cases s.is_good) [
  | inl g ↦
      inr (
        (255, record s { is_good = false }),
        simp g (ap ok (get_from-nil s s.rest (e ∙ h g))),
        refl,
      )
  | inr g ↦ inr ((255, s), rw g refl, g)
]

-- A string stream is a lawful source: while it is good and bytes stand behind its position,
-- `get` delivers the next of them, stays good, and an `unget` right after it gives that byte
-- back; otherwise a `get` leaves it not good.
pub StreamMessage-IsLawful : IsLawful StreamMessage to_come
StreamMessage-IsLawful = record {
  get_next = λ s c rest h. get_next_from s c s.rest rest (ground arith) refl (ground arith);
  get_end = λ s h. get_end_from s s.rest refl (λ g. ground arith);
}
