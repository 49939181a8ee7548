-- ===== src/Policy.antt =====
-- The policy side of an authorization: the condition language and the engine that picks a policy.
pub mod Conditions
pub mod Engine
