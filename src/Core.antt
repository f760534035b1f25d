-- ===== src/Core.antt =====
-- The core domain models: core/types.py, core/event_queue.py, and the JSON-like values that the
-- program passes around.
pub mod Types
pub mod Text
pub mod Json
pub mod TextParts
pub mod ChangeSet
pub mod EventQueue
