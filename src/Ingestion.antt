-- ===== src/Ingestion.antt =====
-- The audit of an import (src/bisfin/ingestion and its repository): batches and their statuses.
pub mod Batches
pub mod DailyBars
pub mod Watermark
pub mod Service
pub mod Transitions
mod Tests
