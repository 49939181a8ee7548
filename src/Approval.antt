-- ===== src/Approval.antt =====
-- apps/api/app/services/approval_engine.py: requests for a human decision, and their resolution.
pub mod Create
pub mod Entry
pub mod Expire
pub mod Run
pub mod Quiet
pub mod Log
pub mod Kin
pub mod Runs
pub mod Authorized
pub mod Pending
pub mod Expiry
