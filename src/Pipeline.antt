-- ===== src/Pipeline.antt =====
-- From the API's coalescer over NATS to the ledger of the metering service.
pub mod Sent
pub mod Taken
pub mod Sound
pub mod Booked
pub mod Rows
pub mod Billed
mod Tests
