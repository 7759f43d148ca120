-- ===== src/Motor.antt =====
-- modules/motor: one motor of the device layer (dev_motor.c) and the board's pair of motors with
-- their command timeout (bsp_motor.c).
pub mod Device
pub mod Board
mod Tests
