-- ===== src/Metering.antt =====
-- The metering service (metering/internal/consumer).
pub mod Consumer
pub mod Keeps
pub mod Invariants
pub mod Prices
pub mod Debit
pub mod Redelivered
pub mod Ledger
pub mod Refines
pub mod Conserved
pub mod Order
pub mod Pending
pub mod Tests
mod LedgerTests
