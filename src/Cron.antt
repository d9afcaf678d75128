-- ===== src/Cron.antt =====
-- packages/agent-core/src/agent_core/scheduling/cron.py
pub mod Error
pub mod Values
pub mod Field
pub mod Date
pub mod Next
pub mod Utc
mod Tests
