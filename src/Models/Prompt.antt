-- ===== src/Models/Prompt.antt =====
-- prompt/compiler.py with requests.py, reminder_sources.py and prompt/tracing.py: from a draft and the
-- reminders in force to one request, and the session that owns the reminders during a turn.
pub mod Template
pub mod Request
pub mod Compiler
mod Sort
mod Unique
pub mod Session
mod Trimming
mod Ending
pub mod Consumption
mod Tests
