-- ===== src/System.antt =====
-- system/: faults, task liveness and the watchdog.
pub mod Fault
pub mod Health
pub mod Guard
mod Tests
