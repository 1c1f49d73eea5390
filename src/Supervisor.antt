-- ===== src/Supervisor.antt =====
-- lib/aib_supervisor.py: what a supervisor remembers (Memory) and restores from its journal (Restore),
-- its state (Machine) and journal file (JournalFile; what survives a crash, in Durable), its sessions (Sessions), the end of a turn (Turns, Results) and the
-- control requests (Controls). The proofs: what a restart restores, in Recovery and its neighbours.
pub mod Memory
pub mod Restore
pub mod Machine
pub mod JournalFile
pub mod Durable
pub mod FailedWrite
pub mod Sessions
pub mod Turns
pub mod Results
pub mod Controls
pub mod Handling
pub mod Recovery
pub mod EndedTurns
pub mod JournalSteps
pub mod Recovered
pub mod Quiet
pub mod Sound
pub mod TurnRecovery
pub mod SessionRecovery
pub mod ResultRecovery
pub mod Restart
pub mod ControlRecovery
pub mod HandlingRecovery
pub mod ProcessRecovery
pub mod Processing
pub mod Rightful
pub mod Permission
pub mod Unfinished
mod JournalWitness
mod Witness
