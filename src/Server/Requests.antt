-- ===== src/Server/Requests.antt =====
-- The requests of the client, one type for all of them: what each builds, and what the handler that
-- is chosen for it reads.
use proj_rc.Base.{ℕ, ◌≤◌, ◌<◌, true, ◌≡◌, refl, append_assoc, ◌++◌, Bytes, drop, take, some}
use proj_rc.Shared.Convert.{convert_auction_id_to_str}
use proj_rc.Shared.Verifications.{verify_password}
use proj_rc.Protocol.Adapter.{Adapter, IsLawful}
use proj_rc.Protocol.Reader.{read_user_id, read_auction_id}
use proj_rc.Protocol.Reader.Yields.{Yields, read_delimiter-Yields}
use proj_rc.Protocol.Reader.Fields.{read_user_id-Yields, read_auction_id-Yields}
use proj_rc.Protocol.Reader.Phrases.{after_space-Yields, line_end-Yields}
use proj_rc.Protocol.Account.{
  ClientLoginUser, ClientLogout, ClientUnregister, build_client_login_user, build_client_logout,
  build_client_unregister, read_client_login_user, read_client_logout, read_client_unregister,
}
use proj_rc.Protocol.Account.RoundTrip.{
  read-build_client_login_user, read-build_client_logout, read-build_client_unregister,
}
use proj_rc.Protocol.Auction.{
  ClientListStartedAuctions, ClientListBiddedAuctions, ClientShowRecord, ClientOpenAuction,
  ClientCloseAuction, ClientShowAsset, ClientBid, build_client_list_started,
  build_client_list_bidded, build_client_list_all, build_client_show_record,
  build_client_open_auction, build_client_close_auction, build_client_show_asset, build_client_bid,
  read_client_list_started, read_client_list_bidded, read_client_list_all, read_client_show_record,
  read_client_open_auction, read_client_close_auction, read_client_show_asset, read_client_bid,
}
use proj_rc.Protocol.Auction.RoundTrip.{
  IsOpening, read-build_client_list_started, read-build_client_show_record,
  read-build_client_open_auction, read-build_client_close_auction, read-build_client_bid,
}
use proj_rc.Server.Dispatch.{
  RequestHandler, login_request, logout_request, unregister_request, list_all_auctions_request,
  list_bidded_auctions_request, list_started_auctions_request, show_record_request,
  open_auction_request, close_auction_request, show_asset_request, bid_request,
}
use proj_rc.Server.Dispatch.{select_handler, register_request_handlers}
use proj_rc.Server.Dispatch.Laws.{transport}

pub data Request : Type 0 where
  login : ClientLoginUser → Request
  logout : ClientLogout → Request
  unregister : ClientUnregister → Request
  list_all : Request
  list_bidded : ClientListBiddedAuctions → Request
  list_started : ClientListStartedAuctions → Request
  show_record : ClientShowRecord → Request
  open_auction : ClientOpenAuction → Request
  close_auction : ClientCloseAuction → Request
  show_asset : ClientShowAsset → Request
  bid : ClientBid → Request

unfoldable pub build_request : Request → Bytes
unfolding build_client_login_user build_client_logout build_client_unregister build_client_list_all
    build_client_list_bidded build_client_list_started build_client_show_record
    build_client_open_auction build_client_close_auction build_client_show_asset build_client_bid
build_request (Request.login m) = build_client_login_user m
build_request (Request.logout m) = build_client_logout m
build_request (Request.unregister m) = build_client_unregister m
build_request Request.list_all = build_client_list_all
build_request (Request.list_bidded m) = build_client_list_bidded m
build_request (Request.list_started m) = build_client_list_started m
build_request (Request.show_record m) = build_client_show_record m
build_request (Request.open_auction m) = build_client_open_auction m
build_request (Request.close_auction m) = build_client_close_auction m
build_request (Request.show_asset m) = build_client_show_asset m
build_request (Request.bid m) = build_client_bid m

-- The handler that is meant for a request.
abbrev pub handler_of : Request → RequestHandler
handler_of (Request.login m) = login_request
handler_of (Request.logout m) = logout_request
handler_of (Request.unregister m) = unregister_request
handler_of Request.list_all = list_all_auctions_request
handler_of (Request.list_bidded m) = list_bidded_auctions_request
handler_of (Request.list_started m) = list_started_auctions_request
handler_of (Request.show_record m) = show_record_request
handler_of (Request.open_auction m) = open_auction_request
handler_of (Request.close_auction m) = close_auction_request
handler_of (Request.show_asset m) = show_asset_request
handler_of (Request.bid m) = bid_request

-- A user id of six digits, and a password that is one.
abbrev HasUser : ℕ → Type 0
HasUser user_id = (100_000 ≤ user_id) × (user_id < 1_000_000)

abbrev HasLogin : ℕ → Bytes → Type 0
HasLogin user_id password =
    (100_000 ≤ user_id) × (user_id < 1_000_000) × (verify_password password ≡ true)

-- The fields that a reader of the server takes whole: a user id of six digits that does not begin
-- with 0, a name of at most 10 bytes, a value of at most six digits, a file of at most 10 MB. The
-- client sends more: it checks no such bounds on ids, names, values of bids and files.
abbrev pub IsReadable : Request → Type 0
IsReadable (Request.login m) = HasLogin m.user_id m.password
IsReadable (Request.logout m) = HasLogin m.user_id m.password
IsReadable (Request.unregister m) = HasLogin m.user_id m.password
IsReadable Request.list_all = Unit
IsReadable (Request.list_bidded m) = HasUser m.user_id
IsReadable (Request.list_started m) = HasUser m.user_id
IsReadable (Request.show_record m) = m.auction_id < 1000
IsReadable (Request.open_auction m) = IsOpening m
IsReadable (Request.close_auction m) = HasLogin m.user_id m.password × (m.auction_id < 1000)
IsReadable (Request.show_asset m) = m.auction_id < 1000
IsReadable (Request.bid m) =
    HasLogin m.user_id m.password × (m.auction_id < 1000) × (0 < m.value) × (m.value < 1_000_000)

selected :
    (r : Request)
    → select_handler register_request_handlers (transport (handler_of r)) (take 3 (build_request r))
      ≡ some (handler_of r)
unfolding select_handler register_request_handlers build_request
selected (Request.login m) = refl
selected (Request.logout m) = refl
selected (Request.unregister m) = refl
selected Request.list_all = refl
selected (Request.list_bidded m) = refl
selected (Request.list_started m) = refl
selected (Request.show_record m) = refl
selected (Request.open_auction m) = refl
selected (Request.close_auction m) = refl
selected (Request.show_asset m) = refl
selected (Request.bid m) = refl

module _ (a : Adapter) {pending : a.Source → Bytes} (w : IsLawful a pending) where
  open a use {Source}

  -- The reader of the request's handler yields the message, and leaves `rest`.
  abbrev pub Reads : Request → Source → Bytes → Type 0
  Reads (Request.login m) s rest = Yields a w (read_client_login_user a) s m rest
  Reads (Request.logout m) s rest = Yields a w (read_client_logout a) s m rest
  Reads (Request.unregister m) s rest = Yields a w (read_client_unregister a) s m rest
  Reads Request.list_all s rest = Yields a w (read_client_list_all a) s tt rest
  Reads (Request.list_bidded m) s rest = Yields a w (read_client_list_bidded a) s m rest
  Reads (Request.list_started m) s rest = Yields a w (read_client_list_started a) s m rest
  Reads (Request.show_record m) s rest = Yields a w (read_client_show_record a) s m rest
  Reads (Request.open_auction m) s rest = Yields a w (read_client_open_auction a) s m rest
  Reads (Request.close_auction m) s rest = Yields a w (read_client_close_auction a) s m rest
  Reads (Request.show_asset m) s rest = Yields a w (read_client_show_asset a) s m rest
  Reads (Request.bid m) s rest = Yields a w (read_client_bid a) s m rest

  read-list_bidded :
      (m : ClientListBiddedAuctions) (s : Source) (rest : Bytes)
      → HasUser m.user_id
      → pending s ≡ drop 3 (build_client_list_bidded m) ++ rest
      → Yields a w (read_client_list_bidded a) s m rest
  unfolding read_client_list_bidded build_client_list_bidded
  read-list_bidded m s rest (l, u) h =
      after_space-Yields a w (read_user_id a) _ s (simp append_assoc at h)
        (λ t g. read_user_id-Yields a w m.user_id 10 t rest l u refl g)
        λ t g. line_end-Yields a w m t rest g

  read-show_asset :
      (m : ClientShowAsset) (s : Source) (rest : Bytes)
      → m.auction_id < 1000
      → pending s ≡ drop 3 (build_client_show_asset m) ++ rest
      → Yields a w (read_client_show_asset a) s m rest
  unfolding read_client_show_asset build_client_show_asset convert_auction_id_to_str
  read-show_asset m s rest u h =
      after_space-Yields a w (read_auction_id a) _ s (simp append_assoc at h)
        (λ t g. read_auction_id-Yields a w m.auction_id 10 t rest u refl g)
        λ t g. line_end-Yields a w m t rest g

  reads :
      (r : Request) (s : Source) (rest : Bytes)
      → IsReadable r
      → pending s ≡ drop 3 (build_request r) ++ rest
      → Reads r s rest
  unfolding build_request
  reads (Request.login m) s rest (l, u, v) h = read-build_client_login_user a w m s rest l u v h
  reads (Request.logout m) s rest (l, u, v) h = read-build_client_logout a w m s rest l u v h
  reads (Request.unregister m) s rest (l, u, v) h =
      read-build_client_unregister a w m s rest l u v h
  reads Request.list_all s rest v h =
      unfold read_client_list_all in read_delimiter-Yields a w s rest h
  reads (Request.list_bidded m) s rest v h = read-list_bidded m s rest v h
  reads (Request.list_started m) s rest (l, u) h = read-build_client_list_started a w m s rest l u h
  reads (Request.show_record m) s rest v h = read-build_client_show_record a w m s rest v h
  reads (Request.open_auction m) s rest v h = read-build_client_open_auction a w m s rest v h
  reads (Request.close_auction m) s rest ((l, u, v), i) h =
      read-build_client_close_auction a w m s rest l u v i h
  reads (Request.show_asset m) s rest v h = read-show_asset m s rest v h
  reads (Request.bid m) s rest ((l, u, v), i, p, q) h =
      read-build_client_bid a w m s rest l u v i p q h

  -- For each request of the client whose fields the readers of the server take whole
  -- (`IsReadable`: a user id from 100000 to 999999, a password that `verify_password`
  -- accepts, an auction id below 1000, a name of at most 10 bytes and a file name of at most
  -- 24 without space or newline, values from 1 to 999999, a time below 100000, and a file of
  -- at most 10 MB with its size): the first three bytes that it builds select its handler
  -- over its transport, TCP for open, close, show_asset and bid and UDP for the others, and
  -- on a lawful source where the bytes behind them stand, and any after them, the reader of
  -- that handler yields the request, and leaves the bytes after it.
  pub request-Reads :
      (r : Request) (s : Source) (rest : Bytes)
      → IsReadable r
      → pending s ≡ drop 3 (build_request r) ++ rest
      → (select_handler register_request_handlers
            (transport (handler_of r))
            (take 3 (build_request r))
          ≡ some (handler_of r))
        × Reads r s rest
  request-Reads r s rest v h = (selected r, reads r s rest v h)
