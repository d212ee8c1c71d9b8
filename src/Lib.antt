-- ===== src/Lib.antt =====
-- The auction server of this repository (user and AS): the protocol that the client and the server
-- share, the database of users and auctions, the request handlers of the server, and the session of
-- the client.
--
-- A request is a line of text. The client builds it, the server picks a handler by its code, the
-- handler reads the rest of it through a byte source, calls the database, and builds an answer,
-- which the client reads. The database keeps its state in files, and its operations take a
-- semaphore, since the server runs as several processes.
--
-- Base holds the names and list lemmas that the parts share: a byte is a natural number, its code,
-- and a string is a list of bytes.
--
-- Shared: src/shared/verifications.cpp is Shared/Verifications, src/shared/utils.cpp is
-- Shared/Convert and, for dates, Shared/Dates; Shared/Decimal is what these use of sprintf,
-- std::to_string, stol and stoi, with the 32-bit casts written out; Shared/Chars is ctype.h in the C
-- locale; Shared/Outcome lists the exceptions.
--
-- Protocol: the classes MessageAdapter, StreamMessage and TcpMessage of src/shared/protocol.hpp are
-- Protocol/Adapter and its children; the readers of ProtocolMessage (src/shared/protocol.cpp) are
-- Protocol/Reader, over any adapter; Protocol/Codes has the codes; Protocol/Account has the messages
-- of login, logout and unregister, Protocol/Auction the requests about auctions, Protocol/Answer
-- the answers to open, close, show_asset and bid, Protocol/Listing the three listings, and
-- Protocol/Record the answer to show_record. `readX` is `read_x`, `X::buildMessage` is `build_x`,
-- `X::readMessage` is `read_x`. Proofs about readers are in Yields (what is returned and what is
-- left), Fields, Phrases, Asset and Raises.
--
-- Database: src/server/database.cpp. Database/Files is the tree of files with the calls of the
-- operating system that the code makes; `writable` says where they succeed; Files/Listing is the
-- directory iterator, and Files/Names says which path the name of an asset leads to, which comes
-- with a request and may hold separators and dots. Database/Monad is the state (the tree and the value of the semaphore) with the
-- three ends of a call: it returns, throws or waits; Monad/Runs has the rules for runs that return.
-- Database/Users has the functions on a user's files, Database/Accounts LoginUser, Logout and
-- Unregister, with their specification on four account states in Accounts/Spec.
--
-- Database/Auctions: Words splits the line of a file at its spaces, Infos has the readers of the
-- START, END and bid files, Files the functions that make the files of an auction; Open, Close
-- (Close and CloseAuction), Listings (MyAuctions, MyBids and List, which share their loop), Bid and
-- Record (ShowAsset, ShowRecord and CreateBaseDir) have the operations; Sort is std::sort by a number
-- that is read from each element. Semaphore and its children are about the semaphore over all
-- operations. Database/Clock is a parameter: time(2), and gmtime as a function from its second to a
-- calendar date; one operation sees one second. What a variable of the code holds before it is set
-- is a parameter too (`Stack`).
--
-- Server: src/server/handlers.cpp and server.cpp. Server/Account has LoginRequest, LogoutRequest
-- and UnregisterRequest with the answers that they promise in Account/Spec; Server/Auction has the
-- other handlers: Lists, Shows (ShowRecord, ShowAsset and the wrong requests) and Changes (Open, Close
-- and Bid). Server/Dispatch has the tables of RequestManager; Server/Requests gathers the requests of
-- the client and the handler of each, Server/Answers the answers.
--
-- Client: src/client. Client/Udp is the loop over the tries of a request over UDP, with what the
-- socket does at each as a parameter (`Network`); Client/Session is the user of the client, the
-- commands login, logout and unregister, and the loop of `main` over them. `Client::logout` is
-- `forget`. Tests applies theorems to concrete inputs.
--
-- Bounds: a reader is structural recursion on the number of bytes it may take, which is the source's
-- own loop bound. The loops over the auctions of a listing and over the bids of a record, as the
-- client reads them, take fuel, one round for each entry and one for the end, and return `none`
-- without it. The loops of the database go over the entries of a directory, a list. The pieces that
-- a socket delivers are a list; behind its end a call delivers nothing.
--
-- Not modelled: the client's other commands, printing, sockets, processes and signals. A failure of the
-- semaphore calls themselves is left out. The calls of a process are modelled one after another:
-- between two calls of one operation no other process changes the files. A name that leads above the
-- working directory of the server leads out of the tree, and is taken not to lead back; links are left
-- out.
pub mod Base
pub mod Shared
pub mod Protocol
pub mod Database
pub mod Server
pub mod Client
pub mod Tests
