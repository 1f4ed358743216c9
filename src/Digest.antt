-- ===== src/Digest.antt =====
-- engines/httpapi/digest.go: the cache that refuses a Digest header sent again.
pub mod Cache
pub mod Bounds
pub mod Refusal
