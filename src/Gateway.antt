-- ===== src/Gateway.antt =====
-- apps/api/app/services/tool_gateway.py: the one place from which a tool is run.
pub mod Tooling
pub mod Record
pub mod Escalate
pub mod Assess
pub mod Permit
pub mod Entry
pub mod Quiet
pub mod Log
pub mod LogEntry
pub mod Only
pub mod Guard
pub mod Authorization
