-- ===== src/Control.antt =====
-- The controllers: common/pid.c, common/filter.c and control/chassis.c. Arithmetic on `float` is the
-- parameter `Float`, and the theorems that need its laws take `IsFloat`.
pub mod Pid
pub mod Filter
pub mod Chassis
mod Tests
