-- ===== src/Tests.antt =====
-- Concrete rows and calls, and the theorems of the library at them.
pub mod Fixtures
pub mod Policies
pub mod Risks
pub mod Calls
pub mod Decisions
pub mod Steps
pub mod Runs
pub mod Externals
pub mod Limits
pub mod Refunds
pub mod Deployments
