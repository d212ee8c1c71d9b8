-- ===== src/Protocol/Adapter.antt =====
-- `MessageAdapter` (protocol.hpp): the interface through which every message is read, and what a
-- reader may rely on.
pub mod Stream
pub mod Tcp
use proj_rc.Base.{ℕ, ◌≡◌, ◌⊎◌, Bool, true, false, [], ◌∷◌, Bytes}
use proj_rc.Shared.Outcome.{Exception, Outcome, ok, raised}

-- `get` may throw (TcpMessage does); `unget` gives back the byte of the last `get`.
pub record Adapter : Type 1 where
  pub Source : Type 0
  pub get : Source → Outcome (ℕ × Source)
  pub good : Source → Bool
  pub unget : Source → Source
  pub getn : ℕ → Source → Outcome (Bytes × Source)

module _ (a : Adapter) where
  open a use {Source, get, good, unget}

  -- A `get` that delivers `c` and leaves `rest`; an `unget` right after it restores `c`.
  pub record Delivers (pending : Source → Bytes) (s : Source) (c : ℕ) (rest : Bytes) : Type 0 where
    pub after : Source
    pub delivered : get s ≡ ok (c, after)
    pub stays_good : good after ≡ true
    pub left : pending after ≡ rest
    pub restored : pending (unget after) ≡ c ∷ rest

  -- A `get` at the end: it throws, or leaves a source that is not good.
  abbrev pub Fails : Source → Type 0
  Fails s =
      ((e : Exception) × (get s ≡ raised e))
      ⊎ ((r : ℕ × Source) × (get s ≡ ok r) × (good r.1 ≡ false))

  -- `pending` lists the bytes that are still to come.
  pub record IsLawful (pending : Source → Bytes) : Type 0 where
    pub get_next :
        (s : Source) (c : ℕ) (rest : Bytes) → pending s ≡ c ∷ rest → Delivers pending s c rest
    pub get_end : (s : Source) → pending s ≡ [] → Fails s
