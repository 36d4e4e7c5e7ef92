-- ===== src/Speech.antt =====
-- How synthesized speech reaches its user: api/internal/grpcclient/client.go and the asynchronous
-- jobs of api/internal/handler/server.go.
pub mod Feed
pub mod Job
pub mod Delivery
pub mod Admission
mod Tests
mod StreamTests
mod SubmitTests
mod QueueTests
mod PagingTests
pub mod Jobs
pub mod Submit
pub mod Stream
pub mod Streaming
pub mod Streamed
pub mod Client
pub mod Usage
pub mod Sorted
pub mod Paging
pub mod Lifecycle
pub mod Standing
pub mod Queue
pub mod Ended
