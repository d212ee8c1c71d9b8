-- ===== src/Tests/Auctions.antt =====
-- Messages about auctions, read from a datagram and from a socket.
use proj_rc.Server.Dispatch.{select_handler, register_request_handlers}
use proj_rc.Server.Dispatch.Laws.{transport}
use proj_rc.Server.Requests.{Request, build_request, handler_of, request-Reads}
use proj_rc.Server.Answers.{Answer, build_answer, answer-ReadsBack}
use proj_rc.Base.{take, ◌≡◌, refl, arith, [], ◌∷◌, ◌++◌, codes, Bytes, some, true, false}
use proj_rc.Shared.Outcome.{Outcome}
use proj_rc.Shared.Decimal.{sprintf_d}
use proj_rc.Protocol.Adapter.Stream.{of_bytes, StreamMessage, StreamMessage-IsLawful}
use proj_rc.Protocol.Reader.Yields.{Yields}
use proj_rc.Protocol.Reader.Asset.{IsAsset}
use proj_rc.Protocol.Auction.{ClientOpenAuction, read_client_open_auction}
use proj_rc.Protocol.Auction.RoundTrip.{IsOpening}
use proj_rc.Protocol.Answer.{ServerShowAsset, build_server_show_asset, read_server_show_asset}
use proj_rc.Protocol.Listing.{
  ServerListAuctions, build_server_list_started, read_server_list_started,
}
use proj_rc.Protocol.Listing.RoundTrip.{entry_texts, read-build_server_list_started}
use proj_rc.Shared.Convert.{convert_auction_id_to_str}
use proj_rc.Tests.Data.{password, password-valid}
use proj_rc.Tests.Wire.{request}

abbrev file : Bytes
file = codes "a b" ++ (10 ∷ 0 ∷ [])

abbrev open_message : ClientOpenAuction
open_message = record {
  user_id = 123_456;
  password = password;
  name = codes "lamp";
  start_value = 20;
  timeactive = 3600;
  assetf_name = codes "lamp.jpg";
  fsize = 5;
  fdata = file;
}

file-IsAsset : IsAsset (codes "lamp.jpg") 5 file
file-IsAsset = record {
  name_size = omega arith;
  name_word = (refl, (refl, (refl, (refl, (refl, (refl, (refl, (refl, tt))))))));
  size_eq = refl;
  size_le = omega arith;
}

open_message-IsOpening : IsOpening open_message
open_message-IsOpening = record {
  user_ge = omega arith;
  user_lt = omega arith;
  password_ok = password-valid;
  name_size = omega arith;
  name_word = (refl, (refl, (refl, (refl, tt))));
  value_pos = omega arith;
  value_lt = omega arith;
  timeactive_lt = omega arith;
  asset = file-IsAsset;
}

abbrev shown : ServerShowAsset
shown = ServerShowAsset.ok (codes "lamp.jpg") 5 file

abbrev listing_text : Bytes
listing_text =
    build_server_list_started (ServerListAuctions.ok (entry_texts ((7, true) ∷ (12, false) ∷ [])))

read-build_server_list_started_example :
    Yields StreamMessage StreamMessage-IsLawful
      (read_server_list_started StreamMessage 3)
      (of_bytes (listing_text ++ []))
      (some (
        ServerListAuctions.ok
          (codes "AID: 007 --- STATUS: ACTIVE" ∷ codes "AID: 012 --- STATUS: OVER" ∷ [])))
      []
unfolding convert_auction_id_to_str sprintf_d
read-build_server_list_started_example =
    read-build_server_list_started StreamMessage StreamMessage-IsLawful (7, true) ((12, false) ∷ [])
      3 (of_bytes (listing_text ++ [])) [] (omega arith, (omega arith, tt)) (omega arith) refl

request-Reads_example :
    (select_handler register_request_handlers
        (transport (handler_of (Request.open_auction open_message)))
        (take 3 (build_request (Request.open_auction open_message)))
      ≡ some (handler_of (Request.open_auction open_message)))
    × Yields StreamMessage StreamMessage-IsLawful
        (read_client_open_auction StreamMessage)
        (request (build_request (Request.open_auction open_message)))
        open_message
        []
request-Reads_example =
    request-Reads StreamMessage StreamMessage-IsLawful (Request.open_auction open_message)
      (request (build_request (Request.open_auction open_message))) [] open_message-IsOpening refl

abbrev shown_text : Bytes
shown_text = build_server_show_asset shown

shown-built : build_answer (Answer.show_asset shown) ≡ Outcome.ok shown_text
unfolding build_answer
shown-built = refl

answer-ReadsBack_example :
    Yields StreamMessage StreamMessage-IsLawful
      (read_server_show_asset StreamMessage)
      (of_bytes (shown_text ++ []))
      shown
      []
answer-ReadsBack_example =
    answer-ReadsBack StreamMessage StreamMessage-IsLawful (Answer.show_asset shown) shown_text
      (of_bytes (shown_text ++ [])) [] file-IsAsset shown-built refl
