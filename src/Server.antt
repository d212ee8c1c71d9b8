-- ===== src/Server.antt =====
-- src/server: the request handlers and the choice of a handler for a message.
pub mod Handled
pub mod Dispatch
pub mod Requests
pub mod Answers
pub mod Account
pub mod Auction
