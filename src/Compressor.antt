-- ===== src/Compressor.antt =====
-- packages/agent-core/src/agent_core/compressor.py
pub mod Message
pub mod Estimate
pub mod Truncate
pub mod Images
pub mod Early
pub mod History
mod Tests
