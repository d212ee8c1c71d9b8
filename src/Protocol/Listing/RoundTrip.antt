-- ===== src/Protocol/Listing/RoundTrip.antt =====
-- A listing that the server builds is the listing that the client shows, over any lawful source,
-- and the loop of the reader ends within as many rounds as there are auctions, and one more.
use proj_rc.Base.{
  ℕ, zero, suc, ◌<◌, ◌≡◌, refl, Bool, true, false, some, List, [], ◌∷◌, ◌++◌, ◌==◌, arith,
  append_assoc, All, Bytes, codes, length, ap, sym, ◌∙◌,
}
use proj_rc.Shared.Convert.{convert_auction_id_to_str}
use proj_rc.Shared.Convert.Laws.{convert_auction_id_to_str-IsAuctionId}
use proj_rc.Protocol.Adapter.{Adapter, IsLawful}
use proj_rc.Protocol.Reader.{
  Reader, is_stop, ◌>>=◌, ◌>>◌, read_char, check_if_over, read_space, read_string,
  read_auction_and_state,
}
use proj_rc.Protocol.Reader.Yields.{Yields, Yields-bind, Yields-pure, read_string-Yields}
use proj_rc.Protocol.Reader.Fields.{digits-IsWord}
use proj_rc.Protocol.Reader.Phrases.{after_space-Yields, answer-Yields, line_end-Yields}
use proj_rc.Protocol.Codes.{space, code_list_auc_server}
use proj_rc.Protocol.Listing.{
  ServerListAuctions, listed, build_server_list_started, read_auctions, read_server_list_started,
}

-- An entry of a listing: an auction, and whether it is active.
abbrev pub Entry : Type 0
Entry = ℕ × Bool

abbrev pub state_text : Bool → Bytes
state_text true = codes "1"
state_text false = codes "0"

-- The text that the server puts into the listing.
abbrev pub entry_text : Entry → Bytes
entry_text (aid, active) = convert_auction_id_to_str aid ++ (space ++ state_text active)

abbrev pub shown_state : Bool → Bytes
shown_state true = codes "ACTIVE"
shown_state false = codes "OVER"

-- The text that the client shows.
abbrev pub entry_shown : Entry → Bytes
entry_shown (aid, active) =
    codes "AID: "
    ++ (convert_auction_id_to_str aid ++ (codes " --- STATUS: " ++ shown_state active))

abbrev pub entry_texts : List Entry → List Bytes
entry_texts [] = []
entry_texts (e ∷ more) = entry_text e ∷ entry_texts more

abbrev pub entries_shown : List Entry → List Bytes
entries_shown [] = []
entries_shown (e ∷ more) = entry_shown e ∷ entries_shown more

-- An auction id of three digits.
abbrev pub HasAid : Entry → Type 0
HasAid (aid, active) = aid < 1000

-- Behind an entry stands a space or the end of the line.
stop_next :
    (es : List Entry) (rest : Bytes)
    → (d : ℕ) × (r : Bytes) × (is_stop d ≡ true) × (listed (entry_texts es) ++ (10 ∷ rest) ≡ d ∷ r)
unfolding listed
stop_next [] rest = (10, rest, refl, refl)
stop_next (e ∷ es) rest = (b' ', _, refl, refl)

module _ (a : Adapter) {pending : a.Source → Bytes} (w : IsLawful a pending) where
  open a use {Source}
  open w use {get_next}

  check_if_over-Yields :
      (c : ℕ) (s : Source) (rest : Bytes)
      → pending s ≡ c ∷ rest
      → Yields a w (check_if_over a) s (c == 10) (c ∷ rest)
  unfolding check_if_over read_char
  check_if_over-Yields c s rest h =
      let d = get_next s c rest h in
      record {
        after = a.unget d.after;
        result = rw (d.delivered, ◌>>=◌, d.stays_good);
        left = d.restored;
      }

  aid_then-Yields :
      {M : Type 0} (k : Bytes → Reader Source M) (aid : ℕ) {tail : Bytes} {m : M} {rest : Bytes}
      → aid < 1000
      → (s : Source) → pending s ≡ space ++ (convert_auction_id_to_str aid ++ (space ++ tail))
      → ((t : Source)
          → pending t ≡ space ++ tail
          → Yields a w (k (convert_auction_id_to_str aid)) t m rest)
      → Yields a w (read_space a >> (read_string a 3 >>= k)) s m rest
  aid_then-Yields k aid u s h next =
      let v = convert_auction_id_to_str-IsAuctionId aid u in
      after_space-Yields a w (read_string a 3) _ s h
        (λ t g.
          read_string-Yields a w 3 (convert_auction_id_to_str aid) b' ' t _ (omega (arith, v.three))
            (digits-IsWord _ v.digits) refl g)
        next

  no_entry-Yields :
      (s : Source) (rest : Bytes)
      → pending s ≡ 10 ∷ rest
      → Yields a w (read_auction_and_state a) s [] (10 ∷ rest)
  unfolding read_auction_and_state
  no_entry-Yields s rest h =
      Yields-bind a w _ _ s (check_if_over-Yields 10 s rest h) λ t g. Yields-pure a w [] t _ g

  entry-Yields :
      (aid : ℕ) (active : Bool) (d : ℕ) (s : Source) (rest : Bytes)
      → aid < 1000
      → is_stop d ≡ true
      → pending s ≡ space ++ (entry_text (aid, active) ++ (d ∷ rest))
      → Yields a w (read_auction_and_state a) s (entry_shown (aid, active)) (d ∷ rest)
  unfolding read_auction_and_state
  entry-Yields aid true d s rest u ds h =
      Yields-bind a w _ _ s (check_if_over-Yields b' ' s _ (simp append_assoc at h)) λ t g.
        aid_then-Yields _ aid u t g λ t g.
          after_space-Yields a w (read_string a 1) _ t g
            (λ t g. read_string-Yields a w 1 (codes "1") d t rest (omega arith) (refl, tt) ds g)
            λ t g. Yields-pure a w _ t _ g
  entry-Yields aid false d s rest u ds h =
      Yields-bind a w _ _ s (check_if_over-Yields b' ' s _ (simp append_assoc at h)) λ t g.
        aid_then-Yields _ aid u t g λ t g.
          after_space-Yields a w (read_string a 1) _ t g
            (λ t g. read_string-Yields a w 1 (codes "0") d t rest (omega arith) (refl, tt) ds g)
            λ t g. Yields-pure a w _ t _ g

  -- The loop of the reader reads all entries up to the end of the line.
  auctions-Yields :
      (fuel : ℕ) (es : List Entry) (s : Source) (rest : Bytes)
      → length es < fuel
      → All HasAid es
      → pending s ≡ listed (entry_texts es) ++ (10 ∷ rest)
      → Yields a w (read_auctions a fuel) s (some (entries_shown es)) (10 ∷ rest)
  unfolding read_auctions listed
  auctions-Yields (suc fuel) [] s rest l v h =
      Yields-bind a w _ _ s (no_entry-Yields s rest h) λ t g. Yields-pure a w _ t _ g
  auctions-Yields (suc fuel) ((aid, active) ∷ es) s rest l (u, v) h =
      let (d, r, ds, e) = stop_next es rest in
      Yields-bind a w _ _ s
        (entry-Yields aid active d s r u ds (
          h
          ∙ (ap (λ q. space ++ q)
                (append_assoc (entry_text (aid, active)) (listed (entry_texts es)) (10 ∷ rest))
              ∙ ap (λ q. space ++ (entry_text (aid, active) ++ q)) e)))
        λ t g.
          Yields-bind a w _ _ t (auctions-Yields fuel es t rest (omega arith) v (g ∙ sym e))
            λ t k. Yields-pure a w _ t _ k
  auctions-Yields zero es s rest l v h = absurd (omega arith)

  -- `read_server_list_started` on a lawful source where a built listing of at least one
  -- auction stands, with ids below 1000 and any states, and any bytes after it, returns with
  -- fuel for one round more than there are auctions: it yields the auctions as the client
  -- shows them, in their order, and leaves the bytes after the listing.
  pub read-build_server_list_started :
      (e : Entry) (es : List Entry) (fuel : ℕ) (s : Source) (rest : Bytes)
      → All HasAid (e ∷ es)
      → suc (length es) < fuel
      → pending s ≡ build_server_list_started (ServerListAuctions.ok (entry_texts (e ∷ es))) ++ rest
      → Yields a w
          (read_server_list_started a fuel)
          s
          (some (ServerListAuctions.ok (entries_shown (e ∷ es))))
          rest
  unfolding read_server_list_started build_server_list_started listed
  read-build_server_list_started e es fuel s rest v l h =
      answer-Yields a w code_list_auc_server (codes "OK") _ b' ' _ s (omega arith)
        (refl, (refl, tt)) refl (simp append_assoc at h)
        λ t g.
          Yields-bind a w _ _ t (auctions-Yields fuel (e ∷ es) t rest l v (simp append_assoc g))
            λ t g. line_end-Yields a w _ t rest g
