-- ===== src/Tests.antt =====
-- Theorems of the library applied to concrete inputs, by area.
mod Data
mod Market
mod Store
mod Files
mod Convert
mod Wire
mod Accounts
mod Requests
mod Auctions
mod Session
