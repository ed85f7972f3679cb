-- ===== src/Tests.antt =====
-- The theorems at work: runs of the definitions and instances of the theorems on small data.
mod Plans
mod Accounts
mod SignIns
mod Social
mod Guards
mod Requests
mod Boards
mod Schedules
