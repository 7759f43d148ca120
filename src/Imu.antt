-- ===== src/Imu.antt =====
-- modules/imu: the device behind the attitude (device/dev_icm45688.c) and the task that serves it
-- (imu_service.c).
pub mod Loops
pub mod State
pub mod Setters
pub mod Attitude
pub mod Mahony
pub mod Device
pub mod Driver
pub mod Bus
pub mod Valid
pub mod Reached
pub mod Outcomes
pub mod Rest
pub mod Calibration
pub mod Task
pub mod Wait
mod Tests
