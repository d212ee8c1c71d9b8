-- ===== src/Shared.antt =====
-- src/shared: exceptions, character classes, verifications.cpp and utils.cpp.
pub mod Outcome
pub mod Chars
pub mod Decimal
pub mod Verifications
pub mod Convert
pub mod Dates
