-- ===== src/Protocol/Adapter/Tcp.antt =====
-- `TcpMessage` (protocol.hpp): a message read from a socket in pieces of at most 512 bytes.
use proj_rc.Base.{
  ℕ, zero, suc, ◌≡◌, refl, inl, Bool, true, false, [], ◌∷◌, ◌++◌, List, arith, if◌then◌else◌,
  length, Bytes, append-nil,
}
use proj_rc.Shared.Outcome.{Exception, Outcome, ok, raised, invalid_message, message_receive}
use proj_rc.Protocol.Adapter.{Adapter, Delivers, Fails, IsLawful}

-- `incoming` lists what the following calls of `read` deliver. An empty piece is a call that
-- returns 0 or -1: the peer closed, an error, or a timeout; so is every call behind the list.
-- `buffer` is `_buffer` from its back to its front, so `back` is its head.
pub record Tcp : Type 0 where
  pub incoming : List Bytes
  pub buffer : Bytes
  pub last : ℕ
  pub has_read : Bool

abbrev pub of_pieces : List Bytes → Tcp
of_pieces pieces = record { incoming = pieces; buffer = []; last = 0; has_read = false }

no_bytes : Tcp → Outcome Tcp
no_bytes s = if s.has_read then raised invalid_message else raised message_receive

-- The piece goes into the buffer back to front, so that its first byte is at the back.
fill_from : Tcp → List Bytes → Outcome Tcp
unfolding no_bytes
fill_from s [] = no_bytes s
fill_from s ([] ∷ more) = no_bytes s
fill_from s ((c ∷ piece) ∷ more) =
    ok (record s { incoming = more; buffer = (c ∷ piece) ++ s.buffer; has_read = true })

unfoldable pub fill_buffer : Tcp → Outcome Tcp
unfolding fill_from
fill_buffer s = fill_from s s.incoming

-- `_last = _buffer.back(); _buffer.pop_back();`
take_back : Tcp → Bytes → Outcome (ℕ × Tcp)
take_back s [] = raised invalid_message
take_back s (c ∷ b) = ok (c, record s { buffer = b; last = c })

refill : Outcome Tcp → Outcome (ℕ × Tcp)
unfolding take_back
refill (ok s) = take_back s s.buffer
refill (raised e) = raised e

get_from : Tcp → Bytes → Outcome (ℕ × Tcp)
unfolding refill fill_buffer
get_from s [] = refill (fill_buffer s)
get_from s (c ∷ b) = take_back s (c ∷ b)

unfoldable pub get : Tcp → Outcome (ℕ × Tcp)
unfolding get_from
get s = get_from s s.buffer

unfoldable pub unget : Tcp → Tcp
unget s = record s { buffer = s.last ∷ s.buffer }

unfoldable pub getn : ℕ → Tcp → Outcome (Bytes × Tcp)
getn zero s = ok ([], s)
getn (suc n) s = elim (get s) [
  | raised e ↦ raised e
  | ok (c, s') ↦ elim (getn n s') [ raised e ↦ raised e | ok (str, t) ↦ ok (c ∷ str, t) ]
]

abbrev pub TcpMessage : Adapter
TcpMessage = record { Source = Tcp; get = get; good = λ s. true; unget = unget; getn = getn }

-- The bytes that arrive before the first call of `read` that delivers none.
abbrev pub arriving : List Bytes → Bytes
arriving [] = []
arriving ([] ∷ more) = []
arriving ((c ∷ piece) ∷ more) = (c ∷ piece) ++ arriving more

abbrev pub to_come : Tcp → Bytes
to_come s = s.buffer ++ arriving s.incoming

Delivers-from :
    (s : Tcp) (c : ℕ) (rest b : Bytes) (i : List Bytes)
    → s.buffer ≡ b
    → s.incoming ≡ i
    → b ++ arriving i ≡ c ∷ rest
    → Delivers TcpMessage to_come s c rest
unfolding get unget
Delivers-from s c rest (d ∷ b) i eb ei h = record {
  after = record s { buffer = b; last = d };
  delivered = rw (eb, get_from, take_back) (cc);
  stays_good = refl;
  left = rw ei (cc);
  restored = rw ei h;
}
Delivers-from s c rest [] [] eb ei h = cc
Delivers-from s c rest [] ([] ∷ i) eb ei h = cc
Delivers-from s c rest [] ((d ∷ p) ∷ i) eb ei h = record {
  after = record { incoming = i; buffer = p ++ s.buffer; last = d; has_read = true };
  delivered = rw (eb, get_from) (rw (ei, fill_buffer) (cc));
  stays_good = refl;
  left = rw (eb, append-nil) (cc);
  restored = rw (eb, append-nil) h;
}

-- A message that breaks off is invalid; one that never began was not received.
abbrev pub end_exception : Bool → Exception
end_exception has_read = if has_read then invalid_message else message_receive

refill-no_bytes : (s : Tcp) → refill (no_bytes s) ≡ raised (end_exception s.has_read)
unfolding refill no_bytes
refill-no_bytes s = ground arith

Fails-from :
    (s : Tcp) (b : Bytes) (i : List Bytes)
    → s.buffer ≡ b
    → s.incoming ≡ i
    → b ++ arriving i ≡ []
    → Fails TcpMessage s
unfolding get
Fails-from s (c ∷ b) i eb ei h = cc
Fails-from s [] ((c ∷ p) ∷ i) eb ei h = cc
Fails-from s [] [] eb ei h =
    inl (end_exception s.has_read, rw (eb, get_from) (rw (ei, fill_buffer) (refill-no_bytes s)))
Fails-from s [] ([] ∷ i) eb ei h =
    inl (end_exception s.has_read, rw (eb, get_from) (rw (ei, fill_buffer) (refill-no_bytes s)))

-- A socket that delivers a message in pieces is a lawful source: while bytes are to come in
-- its buffer or in the pieces before the first empty one, `get` delivers the next of them and
-- an `unget` right after it gives that byte back; when none are, `get` throws.
pub TcpMessage-IsLawful : IsLawful TcpMessage to_come
TcpMessage-IsLawful = record {
  get_next = λ s c rest h. Delivers-from s c rest s.buffer s.incoming refl refl h;
  get_end = λ s h. Fails-from s s.buffer s.incoming refl refl h;
}

-- On a socket where `content` and then `rest` are to come, in whatever pieces, `getn` of the
-- length of `content` returns `content` and leaves `rest` to come.
pub getn-arriving :
    (content : Bytes) (s : Tcp) (rest : Bytes)
    → to_come s ≡ content ++ rest
    → (after : Tcp) × (getn (length content) s ≡ ok (content, after)) × (to_come after ≡ rest)
unfolding getn
getn-arriving [] s rest h = (s, refl, h)
getn-arriving (c ∷ content) s rest h =
    let d = Delivers-from s c (content ++ rest) s.buffer s.incoming refl refl h in
    let next : get s ≡ ok (c, d.after) = d.delivered in
    let (after, result, left) = getn-arriving content d.after rest d.left in
    (after, rw (getn, next, result), left)
