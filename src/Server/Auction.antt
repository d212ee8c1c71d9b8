-- ===== src/Server/Auction.antt =====
-- The handlers of the requests on auctions (handlers.cpp). What they print is not modelled.
pub mod Lists
pub mod Shows
pub mod Changes
