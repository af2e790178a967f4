-- ===== src/Autonomy.antt =====
-- agent/autonomy.py and agent/pause.py: the operator's dial and the pause flag.
pub mod Dial
pub mod Pause
pub mod Closed
pub mod Stopped
