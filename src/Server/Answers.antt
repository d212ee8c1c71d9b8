-- ===== src/Server/Answers.antt =====
-- The answers of the server, one type for those that are read back by a theorem of their own: what
-- each builds, and what the client that awaits it reads.
use proj_rc.Base.{◌≡◌, ◌++◌, Bytes}
use proj_rc.Shared.Outcome.{Outcome, ok, ok-injective}
use proj_rc.Protocol.Adapter.{Adapter, IsLawful}
use proj_rc.Protocol.Reader.Yields.{Yields}
use proj_rc.Protocol.Account.{
  LoginStatus, LogoutStatus, UnregisterStatus, build_server_login_user, build_server_logout,
  build_server_unregister, read_server_login_user, read_server_logout, read_server_unregister,
}
use proj_rc.Protocol.Account.RoundTrip.{
  read-build_server_login_user, read-build_server_logout, read-build_server_unregister,
}
use proj_rc.Protocol.Answer.{
  ServerOpenAuction, ServerShowAsset, CloseAuctionStatus, BidStatus, build_server_open_auction,
  build_server_show_asset, build_server_close_auction, build_server_bid, read_server_open_auction,
  read_server_show_asset, read_server_close_auction, read_server_bid,
}
use proj_rc.Protocol.Answer.RoundTrip.{
  IsOpened, IsShown, read-build_server_open_auction, read-build_server_show_asset,
  read-build_server_close_auction, read-build_server_bid,
}

pub data Answer : Type 0 where
  login : LoginStatus → Answer
  logout : LogoutStatus → Answer
  unregister : UnregisterStatus → Answer
  open_auction : ServerOpenAuction → Answer
  close_auction : CloseAuctionStatus → Answer
  show_asset : ServerShowAsset → Answer
  bid : BidStatus → Answer

unfoldable pub build_answer : Answer → Outcome Bytes
build_answer (Answer.login m) = ok (build_server_login_user m)
build_answer (Answer.logout m) = ok (build_server_logout m)
build_answer (Answer.unregister m) = ok (build_server_unregister m)
build_answer (Answer.open_auction m) = build_server_open_auction m
build_answer (Answer.close_auction m) = ok (build_server_close_auction m)
build_answer (Answer.show_asset m) = ok (build_server_show_asset m)
build_answer (Answer.bid m) = ok (build_server_bid m)

-- The fields of an answer that has some.
abbrev pub IsAnswer : Answer → Type 0
IsAnswer (Answer.open_auction m) = IsOpened m
IsAnswer (Answer.show_asset m) = IsShown m
IsAnswer _ = Unit

module _ (a : Adapter) {pending : a.Source → Bytes} (w : IsLawful a pending) where
  open a use {Source}

  -- The reader of the answer yields it, and leaves `rest`.
  abbrev pub ReadsBack : Answer → Source → Bytes → Type 0
  ReadsBack (Answer.login m) s rest = Yields a w (read_server_login_user a) s m rest
  ReadsBack (Answer.logout m) s rest = Yields a w (read_server_logout a) s m rest
  ReadsBack (Answer.unregister m) s rest = Yields a w (read_server_unregister a) s m rest
  ReadsBack (Answer.open_auction m) s rest = Yields a w (read_server_open_auction a) s m rest
  ReadsBack (Answer.close_auction m) s rest = Yields a w (read_server_close_auction a) s m rest
  ReadsBack (Answer.show_asset m) s rest = Yields a w (read_server_show_asset a) s m rest
  ReadsBack (Answer.bid m) s rest = Yields a w (read_server_bid a) s m rest

  -- For each answer to login, logout, unregister, open, close, show_asset and bid that can
  -- be built, with an id below 1000 or a file that `IsAsset` accepts where it has one: on a
  -- lawful source where what it builds stands, and any bytes after it, its reader yields it,
  -- and leaves the bytes after it.
  pub answer-ReadsBack :
      (m : Answer) (message : Bytes) (s : Source) (rest : Bytes)
      → IsAnswer m
      → build_answer m ≡ ok message
      → pending s ≡ message ++ rest
      → ReadsBack m s rest
  unfolding build_answer
  answer-ReadsBack (Answer.login m) message s rest v b h =
      read-build_server_login_user a w m s rest (rw (ok-injective b) h)
  answer-ReadsBack (Answer.logout m) message s rest v b h =
      read-build_server_logout a w m s rest (rw (ok-injective b) h)
  answer-ReadsBack (Answer.unregister m) message s rest v b h =
      read-build_server_unregister a w m s rest (rw (ok-injective b) h)
  answer-ReadsBack (Answer.open_auction m) message s rest v b h =
      read-build_server_open_auction a w m message s rest v b h
  answer-ReadsBack (Answer.close_auction m) message s rest v b h =
      read-build_server_close_auction a w m s rest (rw (ok-injective b) h)
  answer-ReadsBack (Answer.show_asset m) message s rest v b h =
      read-build_server_show_asset a w m s rest v (rw (ok-injective b) h)
  answer-ReadsBack (Answer.bid m) message s rest v b h =
      read-build_server_bid a w m s rest (rw (ok-injective b) h)
