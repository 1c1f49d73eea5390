-- ===== src/Control.antt =====
-- lib/aib_control.py: who a caller is (Identity; who counts as an operator, in Operators), and the
-- control log (Log; what it keeps, in Lookup).
pub mod Identity
pub mod Log
pub mod Lookup
pub mod Operators
mod Witness
