-- ===== src/Daemon/Systemv.antt =====
-- daemon_systemv_linux.go
pub mod Files
pub mod Parents
pub mod PidFile
pub mod Handover
pub mod Run
pub mod Race
