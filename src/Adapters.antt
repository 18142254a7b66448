-- ===== src/Adapters.antt =====
-- The adapters of the exchanges (core/adapters): Maps has the names of types and statuses, Messages the
-- orders that the streams report, Rest the open orders that Binance answers.
pub mod Maps
pub mod Messages
pub mod Rest
pub mod Types
pub mod Statuses
mod Tests
