-- ===== src/Protocol/Listing.antt =====
-- The answers that list auctions (protocol.cpp): what the server builds, and what the client reads.
pub mod RoundTrip
use proj_rc.Base.{
  ℕ, zero, suc, Option, none, some, List, [], ◌∷◌, ◌++◌, if◌then◌else◌, Bytes, bytes_eq, codes,
}
use proj_rc.Shared.Outcome.{Outcome, raised, invalid_message, message_building}
use proj_rc.Protocol.Adapter.{Adapter}
use proj_rc.Protocol.Reader.{
  Reader, ◌>>=◌, ◌>>◌, pure, throw, read_space, read_delimiter, read_string, read_message_id,
  read_auction_and_state,
}
use proj_rc.Protocol.Codes.{
  code_list_auc_server, code_list_myb_server, code_list_allauc_server, space, endl,
}

-- A status, with the list `auctions` where it is OK. The answer to `list` is never `nlg`.
pub data ServerListAuctions : Type 0 where
  ok : List Bytes → ServerListAuctions
  nok nlg err : ServerListAuctions

-- The loop of `buildMessage`.
unfoldable pub listed : List Bytes → Bytes
listed [] = []
listed (auction ∷ more) = space ++ (auction ++ listed more)

abbrev pub list_text : ServerListAuctions → Bytes
list_text (ServerListAuctions.ok auctions) = codes "OK" ++ listed auctions
list_text ServerListAuctions.nok = codes "NOK"
list_text ServerListAuctions.nlg = codes "NLG"
list_text ServerListAuctions.err = codes "ERR"

unfoldable pub build_server_list_started : ServerListAuctions → Bytes
build_server_list_started m = code_list_auc_server ++ (space ++ (list_text m ++ endl))

unfoldable pub build_server_list_bidded : ServerListAuctions → Bytes
build_server_list_bidded m = code_list_myb_server ++ (space ++ (list_text m ++ endl))

-- The status of an answer to `list` is one of three; `nlg` is not one of them.
unfoldable pub build_server_list_all : ServerListAuctions → Outcome Bytes
build_server_list_all ServerListAuctions.nlg = raised message_building
build_server_list_all (ServerListAuctions.ok auctions) =
    Outcome.ok
      (code_list_allauc_server ++ (space ++ (list_text (ServerListAuctions.ok auctions) ++ endl)))
build_server_list_all ServerListAuctions.nok =
    Outcome.ok (code_list_allauc_server ++ (space ++ (list_text ServerListAuctions.nok ++ endl)))
build_server_list_all ServerListAuctions.err =
    Outcome.ok (code_list_allauc_server ++ (space ++ (list_text ServerListAuctions.err ++ endl)))

-- What the loop of `readMessage` has read; `none`: the fuel is used up.
abbrev pub ReadAuctions : Type 0
ReadAuctions = Option (List Bytes)

abbrev cons_auction : Bytes → ReadAuctions → ReadAuctions
cons_auction auc none = none
cons_auction auc (some more) = some (auc ∷ more)

-- No auction at all makes the status ERR.
abbrev pub status_of : ReadAuctions → Option ServerListAuctions
status_of none = none
status_of (some []) = some ServerListAuctions.err
status_of (some (auc ∷ more)) = some (ServerListAuctions.ok (auc ∷ more))

module _ (a : Adapter) where
  open a use {Source}

  -- `while ((auc = readAuctionAndState(buffer)).length() > 0)`
  unfoldable pub read_auctions : ℕ → Reader Source ReadAuctions
  read_auctions zero = pure none
  read_auctions (suc fuel) =
      let rest = read_auctions fuel in
      read_auction_and_state a >>= λ auc.
      if bytes_eq auc [] then pure (some []) else (rest >>= λ more. pure (cons_auction auc more))

  unfoldable pub list_by_status : ℕ → Bytes → Reader Source (Option ServerListAuctions)
  unfolding read_auctions
  list_by_status fuel status_str =
      if bytes_eq status_str (codes "OK")
      then (read_auctions fuel >>= λ auctions. read_delimiter a >> pure (status_of auctions))
      else if bytes_eq status_str (codes "NOK")
      then (read_delimiter a >> pure (some ServerListAuctions.nok))
      else if bytes_eq status_str (codes "NLG")
      then (read_delimiter a >> pure (some ServerListAuctions.nlg))
      else if bytes_eq status_str (codes "ERR")
      then (read_delimiter a >> pure (some ServerListAuctions.err))
      else throw invalid_message

  unfoldable pub read_server_list_started : ℕ → Reader Source (Option ServerListAuctions)
  unfolding list_by_status
  read_server_list_started fuel = do
    read_message_id a code_list_auc_server
    read_space a
    status_str ← read_string a 3
    list_by_status fuel status_str

  unfoldable pub read_server_list_bidded : ℕ → Reader Source (Option ServerListAuctions)
  unfolding list_by_status
  read_server_list_bidded fuel = do
    read_message_id a code_list_myb_server
    read_space a
    status_str ← read_string a 3
    list_by_status fuel status_str

  unfoldable pub list_all_by_status : ℕ → Bytes → Reader Source (Option ServerListAuctions)
  unfolding read_auctions
  list_all_by_status fuel status_str =
      if bytes_eq status_str (codes "OK")
      then (read_auctions fuel >>= λ auctions. read_delimiter a >> pure (status_of auctions))
      else if bytes_eq status_str (codes "NOK")
      then (read_delimiter a >> pure (some ServerListAuctions.nok))
      else if bytes_eq status_str (codes "ERR")
      then (read_delimiter a >> pure (some ServerListAuctions.err))
      else throw invalid_message

  unfoldable pub read_server_list_all : ℕ → Reader Source (Option ServerListAuctions)
  unfolding list_all_by_status
  read_server_list_all fuel = do
    read_message_id a code_list_allauc_server
    read_space a
    status_str ← read_string a 3
    list_all_by_status fuel status_str
