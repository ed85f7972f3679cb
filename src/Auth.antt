-- ===== src/Auth.antt =====
-- app/auth/service.py and app/auth/repository.py: accounts, refresh-token sessions and the
-- single-use tokens of emails. An ObjectId is a number and a moment a number of seconds. Hashing,
-- passwords, access tokens and lower case are parameters; the values that a call draws (ids,
-- tokens, the clock) are one record of its own.
pub mod Data
pub mod Store
pub mod Accounts
pub mod Refresh
pub mod Mail
pub mod Tokens
pub mod SignIn
pub mod Bearer
pub mod Verify
pub mod Jobs
pub mod Routes
pub mod Throttle
pub mod Sessions
