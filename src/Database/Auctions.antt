-- ===== src/Database/Auctions.antt =====
-- The auctions of src/server/database.cpp.
pub mod Words
pub mod Infos
pub mod Files
pub mod Sort
pub mod Open
pub mod Close
pub mod Listings
pub mod Bid
pub mod Record
pub mod Semaphore
