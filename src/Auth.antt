-- ===== src/Auth.antt =====
-- Accounts and sessions: cpa_first/auth/ and the users and refresh tokens of
-- cpa_first/db/repositories.py. `Model` holds the rows and a request's transaction, `Library` what
-- the code calls and does not implement, `Repo` the queries, `Tokens` auth/tokens.py, `Router` the
-- endpoints of auth/router.py and `Guard` auth/dependencies.py. The other children prove.
pub mod Model
pub mod Library
pub mod Repo
pub mod Tokens
pub mod Router
pub mod Guard
pub mod Rows
pub mod Refresh
pub mod Entry
pub mod Change
pub mod History
pub mod Security
pub mod Identity
mod Sample
mod Tests
