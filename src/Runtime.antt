-- ===== src/Runtime.antt =====
-- apps/api/app/services/agent_runtime.py: the steps of an execution, one at a time under a lease.
pub mod Results
pub mod Lease
pub mod Steps
pub mod Call
pub mod Advance
pub mod Pending
pub mod Entry
pub mod Keeps
pub mod Places
pub mod Numbers
pub mod Authorized
pub mod Bound
pub mod Capped
pub mod Leased
pub mod Exclusive
