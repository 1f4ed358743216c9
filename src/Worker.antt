-- ===== src/Worker.antt =====
-- backend/internal/worker: the queue of background jobs, its table and its runner.
pub mod Job
pub mod Table
pub mod State
pub mod Loop
pub mod Requests
pub mod Listing
pub mod Handle
pub mod Steps
pub mod Limits
