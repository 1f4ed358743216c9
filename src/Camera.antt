-- ===== src/Camera.antt =====
-- The process of a camera, backend/internal/camera: its events.
pub mod Events
pub mod Pacing
