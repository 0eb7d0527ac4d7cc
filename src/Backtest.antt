-- ===== src/Backtest.antt =====
-- The reference backtest (src/bisfin/backtest), from the request to the final valuations.
pub mod Errors
pub mod Contracts
pub mod Accounting
pub mod Selector
pub mod Strategy
pub mod Engine
pub mod Trades
pub mod Loading
mod Tests
