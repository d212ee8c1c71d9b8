-- ===== src/Database.antt =====
-- src/server/database.hpp and database.cpp: the directory tree under ASDIR, the semaphore, and the
-- operations of `Database`.
pub mod Files
pub mod Monad
pub mod Clock
pub mod Auctions
pub mod Users
pub mod Accounts
