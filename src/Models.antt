-- ===== src/Models.antt =====
-- The model layer of src/purrcept_core/models.
pub mod Messages
pub mod Context
pub mod Reminders
pub mod Prompt
pub mod Loop
pub mod Conversation
pub mod Decisions
pub mod Streaming
pub mod Json
pub mod Tools
