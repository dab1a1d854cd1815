-- ===== src/Agent.antt =====
-- server/src/agent: the tools, the approval of dangerous ones, sessions and their messages.
pub mod Tools
pub mod Words
pub mod Intent
pub mod Engine
pub mod Sessions
pub mod Approvals
pub mod Registry
pub mod Guard
pub mod Decided
pub mod Pending
pub mod Trail
pub mod Dialogue
pub mod Reach
mod Tests
