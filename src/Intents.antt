-- ===== src/Intents.antt =====
-- lib/task_intent.py: the intents that a confined worker queues and the supervisor applies.
pub mod Validate
pub mod Client
pub mod Sound
pub mod Wanted
pub mod Queue
mod Witness
