-- ===== src/Risk.antt =====
-- The deterministic risk assessment: its constants, its detectors and the engine that weighs them.
pub mod Config
pub mod Normal
pub mod Signals
pub mod Engine
