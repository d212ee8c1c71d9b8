-- ===== src/Protocol/Answer/RoundTrip.antt =====
-- An answer about auctions that the server builds is the answer that the client reads, over any
-- lawful source.
use proj_rc.Base.{◌<◌, ◌≡◌, refl, ◌∷◌, ◌++◌, arith, append_assoc, Bytes, codes, ap, sym, ◌∙◌}
use proj_rc.Shared.Outcome.{Outcome, ok-injective}
use proj_rc.Shared.Convert.{convert_auction_id_to_str}
use proj_rc.Protocol.Adapter.{Adapter, IsLawful}
use proj_rc.Protocol.Reader.{◌>>◌, pure, read_delimiter, read_auction_id}
use proj_rc.Protocol.Reader.Yields.{Yields, Yields-then, Yields-lift, read_delimiter-Yields}
use proj_rc.Protocol.Reader.Fields.{IsText, read_auction_id-Yields}
use proj_rc.Protocol.Reader.Phrases.{
  after_space-Yields, answer-Yields, status-Yields, line_end-Yields,
}
use proj_rc.Protocol.Reader.Asset.{IsAsset, asset-Yields}
use proj_rc.Protocol.Codes.{
  code_open_auc_server, code_close_auc_server, code_show_asset_server, code_bid_server,
}
use proj_rc.Protocol.Answer.{
  ServerOpenAuction, build_server_open_auction, read_server_open_auction, ServerShowAsset,
  build_server_show_asset, read_server_show_asset, CloseAuctionStatus, close_status_text,
  parse_close_status, build_server_close_auction, read_server_close_auction, BidStatus,
  bid_status_text, parse_bid_status, build_server_bid, read_server_bid, read_asset,
}

close-IsText :
    (status : CloseAuctionStatus) → IsText parse_close_status (close_status_text status) status
unfolding parse_close_status close_status_text
close-IsText CloseAuctionStatus.ok = (omega arith, (refl, (refl, tt)), refl)
close-IsText CloseAuctionStatus.nlg = (omega arith, (refl, (refl, (refl, tt))), refl)
close-IsText CloseAuctionStatus.eau = (omega arith, (refl, (refl, (refl, tt))), refl)
close-IsText CloseAuctionStatus.eow = (omega arith, (refl, (refl, (refl, tt))), refl)
close-IsText CloseAuctionStatus.end = (omega arith, (refl, (refl, (refl, tt))), refl)
close-IsText CloseAuctionStatus.nok = (omega arith, (refl, (refl, (refl, tt))), refl)
close-IsText CloseAuctionStatus.err = (omega arith, (refl, (refl, (refl, tt))), refl)

bid-IsText : (status : BidStatus) → IsText parse_bid_status (bid_status_text status) status
unfolding parse_bid_status bid_status_text
bid-IsText BidStatus.nok = (omega arith, (refl, (refl, (refl, tt))), refl)
bid-IsText BidStatus.nlg = (omega arith, (refl, (refl, (refl, tt))), refl)
bid-IsText BidStatus.acc = (omega arith, (refl, (refl, (refl, tt))), refl)
bid-IsText BidStatus.ref = (omega arith, (refl, (refl, (refl, tt))), refl)
bid-IsText BidStatus.ilg = (omega arith, (refl, (refl, (refl, tt))), refl)
bid-IsText BidStatus.err = (omega arith, (refl, (refl, (refl, tt))), refl)

-- An answer to an opening that has an auction id of three digits, or none.
abbrev pub IsOpened : ServerOpenAuction → Type 0
IsOpened (ServerOpenAuction.ok auction_id) = auction_id < 1000
IsOpened _ = Unit {0}

-- An answer that has a file that a message can carry, or none.
abbrev pub IsShown : ServerShowAsset → Type 0
IsShown (ServerShowAsset.ok fname fsize fdata) = IsAsset fname fsize fdata
IsShown _ = Unit {0}

module _ (a : Adapter) {pending : a.Source → Bytes} (w : IsLawful a pending) where
  open a use {Source}

  -- `read_server_close_auction` on a lawful source where what `build_server_close_auction`
  -- built stands, and any bytes after it, yields what it was built from, and leaves the
  -- bytes after it.
  pub read-build_server_close_auction :
      (status : CloseAuctionStatus) (s : Source) (rest : Bytes)
      → pending s ≡ build_server_close_auction status ++ rest
      → Yields a w (read_server_close_auction a) s status rest
  unfolding read_server_close_auction build_server_close_auction
  read-build_server_close_auction status s rest h =
      let (size, word, parses) = close-IsText status in
      answer-Yields a w code_close_auc_server (close_status_text status) _ 10 rest s size word refl
        (simp append_assoc at h)
        λ t g.
          Yields-then a w _ _ t (read_delimiter-Yields a w t rest g)
            λ t g. Yields-lift a w _ status t rest parses g

  -- `read_server_bid` on a lawful source where what `build_server_bid` built stands, and any
  -- bytes after it, yields what it was built from, and leaves the bytes after it.
  pub read-build_server_bid :
      (status : BidStatus) (s : Source) (rest : Bytes)
      → pending s ≡ build_server_bid status ++ rest
      → Yields a w (read_server_bid a) s status rest
  unfolding read_server_bid build_server_bid
  read-build_server_bid status s rest h =
      let (size, word, parses) = bid-IsText status in
      status-Yields a w parse_bid_status code_bid_server (bid_status_text status) status
        (λ st. read_delimiter a >> pure st) 10 rest s size word refl parses (simp append_assoc at h)
        λ t g. line_end-Yields a w status t rest g

  -- `read_server_open_auction` on a lawful source where what `build_server_open_auction`
  -- built stands, and any bytes after it, for an answer that can be built, with an auction
  -- id below 1000 where it has one, yields what it was built from, and leaves the bytes
  -- after it.
  pub read-build_server_open_auction :
      (m : ServerOpenAuction) (message : Bytes) (s : Source) (rest : Bytes)
      → IsOpened m
      → build_server_open_auction m ≡ Outcome.ok message
      → pending s ≡ message ++ rest
      → Yields a w (read_server_open_auction a) s m rest
  unfolding read_server_open_auction build_server_open_auction convert_auction_id_to_str
  read-build_server_open_auction (ServerOpenAuction.ok aid) message s rest v b h =
      answer-Yields a w code_open_auc_server (codes "OK") _ b' ' _ s (omega arith)
        (refl, (refl, tt)) refl
        (simp append_assoc at (h ∙ ap (λ m. m ++ rest) (sym (ok-injective b))))
        λ t g.
          after_space-Yields a w (read_auction_id a) _ t g
            (λ t g. read_auction_id-Yields a w aid 10 t rest v refl g)
            λ t g. line_end-Yields a w _ t rest g
  read-build_server_open_auction ServerOpenAuction.nok message s rest v b h =
      answer-Yields a w code_open_auc_server (codes "NOK") _ 10 rest s (omega arith)
        (refl, (refl, (refl, tt))) refl (h ∙ ap (λ m. m ++ rest) (sym (ok-injective b)))
        λ t g. line_end-Yields a w _ t rest g
  read-build_server_open_auction ServerOpenAuction.nlg message s rest v b h = cc
  read-build_server_open_auction ServerOpenAuction.err message s rest v b h =
      answer-Yields a w code_open_auc_server (codes "ERR") _ 10 rest s (omega arith)
        (refl, (refl, (refl, tt))) refl (h ∙ ap (λ m. m ++ rest) (sym (ok-injective b)))
        λ t g. line_end-Yields a w _ t rest g

  -- `read_server_show_asset` on a lawful source where what `build_server_show_asset` built
  -- stands, and any bytes after it, for an answer without a file or with one that `IsAsset`
  -- accepts (a name of at most 24 bytes without space or newline, and at most 10 MB of any
  -- bytes with their size), yields what it was built from, and leaves the bytes after it.
  pub read-build_server_show_asset :
      (m : ServerShowAsset) (s : Source) (rest : Bytes)
      → IsShown m
      → pending s ≡ build_server_show_asset m ++ rest
      → Yields a w (read_server_show_asset a) s m rest
  unfolding read_server_show_asset build_server_show_asset read_asset
  read-build_server_show_asset (ServerShowAsset.ok fname fsize fdata) s rest v h =
      answer-Yields a w code_show_asset_server (codes "OK") _ b' ' _ s (omega arith)
        (refl, (refl, tt)) refl (simp append_assoc at h)
        λ t g.
          asset-Yields a w (λ f n d. read_delimiter a >> pure (ServerShowAsset.ok f n d)) fname
            fsize fdata (10 ∷ rest) t v g λ t g. line_end-Yields a w _ t rest g
  read-build_server_show_asset ServerShowAsset.nok s rest v h =
      answer-Yields a w code_show_asset_server (codes "NOK") _ 10 rest s (omega arith)
        (refl, (refl, (refl, tt))) refl h λ t g. line_end-Yields a w _ t rest g
  read-build_server_show_asset ServerShowAsset.err s rest v h =
      answer-Yields a w code_show_asset_server (codes "ERR") _ 10 rest s (omega arith)
        (refl, (refl, (refl, tt))) refl h λ t g. line_end-Yields a w _ t rest g
