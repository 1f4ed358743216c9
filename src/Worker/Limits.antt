-- ===== src/Worker/Limits.antt =====
-- The bounds of the runner: its slots, the numbers of a job's events, the progress of a job.
pub mod Slots
pub mod Sequence
pub mod Progress
