-- ===== src/Cli.antt =====
-- lib/task_cli.py: the command line that writes the task stream.
pub mod Refs
pub mod Arguments
pub mod Payload
pub mod Body
pub mod Replay
pub mod Run
pub mod Locked
pub mod Once
pub mod Again
mod Witness
