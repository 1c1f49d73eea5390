-- ===== src/Attempts.antt =====
-- lib/attempts_fold.py: the framed event stream, and the fold of the launch attempts.
pub mod Frames
pub mod Records
pub mod Numbering
pub mod Coherence
pub mod Settled
mod Witness
