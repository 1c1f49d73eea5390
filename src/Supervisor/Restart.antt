-- ===== src/Supervisor/Restart.antt =====
-- What a restart of lib/aib_supervisor.py restores after a turn.
use ai_bobnet.Supervisor.Machine.{Machine}
use ai_bobnet.Supervisor.Memory.{Core}
