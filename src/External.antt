-- ===== src/External.antt =====
-- apps/api/app/services/external_action_service.py: actions that another system submits, once for
-- each of its request ids.
pub mod Request
pub mod Outcome
pub mod Entry
pub mod Keeps
pub mod Authorized
pub mod Granted
