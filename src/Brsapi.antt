-- ===== src/Brsapi.antt =====
-- The import of BrsApi candlesticks (src/bisfin/integrations/brsapi): from the decoded response to
-- the candidates for canonical bars.
pub mod Json
pub mod Normalization
pub mod Contracts
pub mod Fields
pub mod Candidate
pub mod Rows
pub mod Envelope
pub mod Duplicates
mod Tests
