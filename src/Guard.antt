-- ===== src/Guard.antt =====
-- What limits sign-in attempts (the login guard of app/auth.go) and camera notices (the token bucket
-- of app/supervisor.go).
pub mod Bucket
pub mod Rate
pub mod Login
pub mod Sorting
pub mod Locks
pub mod Memory
