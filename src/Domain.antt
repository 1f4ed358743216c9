-- ===== src/Domain.antt =====
-- backend/internal/domain: the entities and business rules.
pub mod Lifecycle
pub mod Backoff
pub mod Text
pub mod Slug
pub mod Labels
pub mod Users
pub mod Masks
pub mod Network
pub mod Admission
pub mod Profiles
