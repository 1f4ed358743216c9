-- ===== src/Access.antt =====
-- Who may use the panel and its API: app/auth.go without the guard of sign-ins, app/tokens.go, and
-- the queries of both in store/db.
pub mod Db
pub mod Sessions
pub mod SignIn
pub mod Answers
pub mod FirstUser
pub mod Opening
pub mod Lifetime
pub mod Limits
pub mod Tokens
pub mod Revoking
pub mod Hashes
