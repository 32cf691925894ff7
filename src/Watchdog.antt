-- ===== src/Watchdog.antt =====
-- pkg/obs/watchdog: OBS's answers, shared by the stream watchdogs.
pub mod Silent
pub mod Restart
pub mod Cap

-- pkg/obs: the three states of OBS's streaming output.
pub data StreamState : Type 0 where
  steady reconnecting inactive : StreamState
