-- ===== src/Protocol/Auction/RoundTrip.antt =====
-- A request about auctions that the client builds is the request that the server reads, over any
-- lawful source.
use proj_rc.Base.{◌≤◌, ◌<◌, ◌≡◌, refl, true, ◌∷◌, ◌++◌, arith, append_assoc, Bytes, drop, length}
use proj_rc.Shared.Decimal.{stol_u32}
use proj_rc.Shared.Convert.{convert_auction_id_to_str}
use proj_rc.Shared.Verifications.{verify_password}
use proj_rc.Protocol.Adapter.{Adapter, IsLawful}
use proj_rc.Protocol.Reader.{
  ◌>>=◌, ◌>>◌, pure, read_delimiter, read_auction_id, read_auction_value, read_string, lift,
  read_user_id,
}
use proj_rc.Protocol.Reader.Yields.{Yields, read_string-Yields}
use proj_rc.Protocol.Reader.Fields.{
  IsWord, read_user_id-Yields, read_auction_id-Yields, read_auction_value-Yields, number-Yields,
}
use proj_rc.Protocol.Reader.Phrases.{credentials-Yields, after_space-Yields, line_end-Yields}
use proj_rc.Protocol.Reader.Asset.{IsAsset, asset-Yields}
use proj_rc.Protocol.Auction.{
  ClientListStartedAuctions, build_client_list_started, read_client_list_started, ClientShowRecord,
  build_client_show_record, read_client_show_record, ClientOpenAuction, build_client_open_auction,
  read_client_open_auction, ClientCloseAuction, build_client_close_auction,
  read_client_close_auction, ClientBid, build_client_bid, read_client_bid,
}

-- The fields of a request that opens an auction, as the client checks them.
pub record IsOpening (m : ClientOpenAuction) : Type 0 where
  pub user_ge : 100_000 ≤ m.user_id
  pub user_lt : m.user_id < 1_000_000
  pub password_ok : verify_password m.password ≡ true
  pub name_size : length m.name ≤ 10
  pub name_word : IsWord m.name
  pub value_pos : 0 < m.start_value
  pub value_lt : m.start_value < 1_000_000
  pub timeactive_lt : m.timeactive < 100_000
  pub asset : IsAsset m.assetf_name m.fsize m.fdata

module _ (a : Adapter) {pending : a.Source → Bytes} (w : IsLawful a pending) where
  open a use {Source}

  -- `read_client_list_started` on a lawful source where what `build_client_list_started`
  -- built stands behind its code, and any bytes after it, for a user id from 100000 to
  -- 999999, yields the message, and leaves the bytes after it.
  pub read-build_client_list_started :
      (m : ClientListStartedAuctions) (s : Source) (rest : Bytes)
      → 100_000 ≤ m.user_id
      → m.user_id < 1_000_000
      → pending s ≡ drop 3 (build_client_list_started m) ++ rest
      → Yields a w (read_client_list_started a) s m rest
  unfolding read_client_list_started build_client_list_started
  read-build_client_list_started m s rest l u h =
      after_space-Yields a w (read_user_id a) _ s (simp append_assoc at h)
        (λ t g. read_user_id-Yields a w m.user_id 10 t rest l u refl g)
        λ t g. line_end-Yields a w m t rest g

  -- `read_client_show_record` on a lawful source where what `build_client_show_record` built
  -- stands behind its code, and any bytes after it, for an auction id below 1000, yields the
  -- message, and leaves the bytes after it.
  pub read-build_client_show_record :
      (m : ClientShowRecord) (s : Source) (rest : Bytes)
      → m.auction_id < 1000
      → pending s ≡ drop 3 (build_client_show_record m) ++ rest
      → Yields a w (read_client_show_record a) s m rest
  unfolding read_client_show_record build_client_show_record convert_auction_id_to_str
  read-build_client_show_record m s rest u h =
      after_space-Yields a w (read_auction_id a) _ s (simp append_assoc at h)
        (λ t g. read_auction_id-Yields a w m.auction_id 10 t rest u refl g)
        λ t g. line_end-Yields a w m t rest g

  -- `read_client_close_auction` on a lawful source where what `build_client_close_auction`
  -- built stands behind its code, and any bytes after it, for a user id from 100000 to
  -- 999999 and a password that `verify_password` accepts and an auction id below 1000,
  -- yields the message, and leaves the bytes after it.
  pub read-build_client_close_auction :
      (m : ClientCloseAuction) (s : Source) (rest : Bytes)
      → 100_000 ≤ m.user_id
      → m.user_id < 1_000_000
      → verify_password m.password ≡ true
      → m.auction_id < 1000
      → pending s ≡ drop 3 (build_client_close_auction m) ++ rest
      → Yields a w (read_client_close_auction a) s m rest
  unfolding read_client_close_auction build_client_close_auction convert_auction_id_to_str
  read-build_client_close_auction m s rest l u v i h =
      credentials-Yields a w _ m.user_id m.password b' ' _ s l u v refl (simp append_assoc at h)
        λ t g.
          after_space-Yields a w (read_auction_id a) _ t g
            (λ t g. read_auction_id-Yields a w m.auction_id 10 t rest i refl g)
            λ t g. line_end-Yields a w m t rest g

  -- `read_client_bid` on a lawful source where what `build_client_bid` built stands behind
  -- its code, and any bytes after it, for a user id from 100000 to 999999 and a password
  -- that `verify_password` accepts, an auction id below 1000 and a value from 1 to 999999,
  -- yields the message, and leaves the bytes after it.
  pub read-build_client_bid :
      (m : ClientBid) (s : Source) (rest : Bytes)
      → 100_000 ≤ m.user_id
      → m.user_id < 1_000_000
      → verify_password m.password ≡ true
      → m.auction_id < 1000
      → 0 < m.value
      → m.value < 1_000_000
      → pending s ≡ drop 3 (build_client_bid m) ++ rest
      → Yields a w (read_client_bid a) s m rest
  unfolding read_client_bid build_client_bid convert_auction_id_to_str
  read-build_client_bid m s rest l u v i p q h =
      credentials-Yields a w _ m.user_id m.password b' ' _ s l u v refl (simp append_assoc at h)
        λ t g.
          after_space-Yields a w (read_auction_id a) _ t g
            (λ t g. read_auction_id-Yields a w m.auction_id b' ' t _ i refl g)
            λ t g.
              after_space-Yields a w (read_auction_value a) _ t g
                (λ t g. read_auction_value-Yields a w m.value 10 t rest p q refl g)
                λ t g. line_end-Yields a w m t rest g

  -- `read_client_open_auction` on a lawful source where what `build_client_open_auction`
  -- built stands behind its code, and any bytes after it, for a message that `IsOpening`
  -- accepts (a user id of six digits with no leading zero, a valid password, a name and a
  -- file name without space or newline, bounded numbers, a file of at most 10 MB of any
  -- bytes with its size), yields the message, and leaves the bytes after it.
  pub read-build_client_open_auction :
      (m : ClientOpenAuction) (s : Source) (rest : Bytes)
      → IsOpening m
      → pending s ≡ drop 3 (build_client_open_auction m) ++ rest
      → Yields a w (read_client_open_auction a) s m rest
  unfolding read_client_open_auction build_client_open_auction
  read-build_client_open_auction m s rest v h =
      credentials-Yields a w _ m.user_id m.password b' ' _ s v.user_ge v.user_lt v.password_ok refl
        (simp append_assoc at h)
        λ t g.
          after_space-Yields a w (read_string a 10) _ t g
            (λ t g. read_string-Yields a w 10 m.name b' ' t _ v.name_size v.name_word refl g)
            λ t g.
              after_space-Yields a w (read_auction_value a) _ t g
                (λ t g.
                  read_auction_value-Yields a w m.start_value b' ' t _ v.value_pos v.value_lt refl
                    g)
                λ t g.
                  after_space-Yields a w (read_string a 5 >>= λ str. lift (stol_u32 str)) _ t g
                    (λ t g.
                      number-Yields a w 4 m.timeactive b' ' t _ v.timeactive_lt
                        (omega (arith, v.timeactive_lt)) refl g)
                    λ t g.
                      asset-Yields a w
                        (λ f n d.
                          read_delimiter a
                          >> pure (record m { assetf_name = f; fsize = n; fdata = d }))
                        m.assetf_name m.fsize m.fdata (10 ∷ rest) t v.asset g
                        λ t g. line_end-Yields a w m t rest g
