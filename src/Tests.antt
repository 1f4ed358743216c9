-- ===== src/Tests.antt =====
-- The theorems at concrete inputs.
mod Camera
mod Runner
mod Panel
mod SignIn
mod Node
mod Life
mod Push
mod Access
mod Values
mod Events
