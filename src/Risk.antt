-- ===== src/Risk.antt =====
-- core/risk_engine.py: the risk calculator, from candles and the order book to the size of a position
-- and whether it may be entered.
pub mod Volatility
pub mod Book
pub mod Size
pub mod Calculator
mod Tests
