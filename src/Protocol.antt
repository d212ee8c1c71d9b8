-- ===== src/Protocol.antt =====
-- src/shared/protocol.hpp and protocol.cpp: the byte sources that messages are read from, the
-- reading primitives, and the messages.
pub mod Adapter
pub mod Reader
pub mod Codes
pub mod Account
pub mod Auction
pub mod Answer
pub mod Listing
pub mod Record
