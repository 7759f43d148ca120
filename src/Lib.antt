-- ===== src/Lib.antt =====
-- The firmware of a two-wheeled line-following car (an MSPM0G3507 under FreeRTOS), as definitions
-- over explicit state, with theorems on what its parts do.
--
-- The program. Five tasks run on a fixed schedule (app/app_tasks.c): a fast task polls the encoders
-- and stops motors whose commands have ceased, a control task runs the state machine, the mission
-- and the wheel control every 10 ms, a telemetry task talks to the operator, one task serves the
-- IMU, and a health task feeds the watchdog while all others are alive. The UART interrupt hands
-- received bytes to the command parser, a GPIO interrupt counts the encoders' edges. The vision
-- parser and the display are there for the application to call.
--
-- Which file models which part (paths from the root of the repository):
--   Platform            platform/mspm0g3507/drivers: drv_gpio.c, drv_pwm.c, drv_hbridge_motor.c,
--                       drv_quad_encoder.c, drv_spi.c, drv_i2c.c (I2c), drv_uart.c and drv_time.c (Uart)
--   Motor               modules/motor: dev_motor.c (Device) and bsp_motor.c (Board)
--   Encoder             modules/encoder/bsp_encoder.c
--   Control             common/pid.c (Pid), common/filter.c (Filter), control/chassis.c (Chassis)
--   Line                drv_line_sensor.c, modules/line_sensor/dev_line_sensor.c and bsp_adc.c (Board),
--                       and control/line_tracker.c (Tracker)
--   Telemetry           modules/telemetry/telemetry.c: the requests, the command parser over bytes
--                       (Commands, with the C library's conversions in Number) and the reports
--                       (Emit); modules/telemetry/bsp_uart.c (DebugUart), the port of both
--   Imu                 modules/imu: device/dev_icm45688.c (State, Setters, Attitude, Mahony, Device
--                       and Driver), its callbacks with bsp_imu.c (Bus), and imu_service.c
--                       (Calibration, Wait and Task)
--   Display             modules/display/ssd1306_mspm0.c, its font in Font; what a call sends (Packets,
--                       Sending, Text and Pages), that it succeeds (Waits, Ready) and where (Cells)
--   Rtt                 modules/telemetry/rtt_log.c, the ring buffer read by a debug probe
--   App                 app/app_shared.c, app_state.c, app_mission.c and the fast, the control and the
--                       telemetry task of app_tasks.c (Tasks); Composed joins them to the IMU;
--                       Start has app_main.c, the creation of the tasks and main.c;
--                       Serial joins the state machine to the port
--   Vision              modules/vision/dev_vision.c, the frames of the camera, and bsp_k230.c (Board)
--   System              system/fault_manager.c, health_monitor.c and watchdog.c, with health_task
--   Prelude             words, integers, lists and Boolean tests; Float: the arithmetic of `float`
-- A definition has the name of the C function without its prefix: `BSP_Motor_SetDuty` is `set_duty`
-- of Motor.Board. A struct or the static variables of a file are a record. A module's folder holds
-- its theorems, and its Tests the runs and the theorems at concrete inputs.
--
-- How the code is read:
--   * A function that changes state returns the new state. Where the state is shared, the caller
--     passes it on, in the order of the calls. The masking of interrupts makes each operation of the
--     encoders one step.
--   * Calls of the vendor's DriverLib are listed in a trace (`List Call`), in order. What they read
--     is a parameter (`Reader`), and time an argument `now`, in milliseconds, that wraps at 2 ^ 32.
--     For the buses the library is a record of functions on a state of its own (`SpiLib`, `I2cLib`,
--     `UartLib`); a theorem that needs more names what the documentation says of it (`IsTraced`,
--     `IsReady`, `IsAnswering`, `IsSending`, `IsReceiving`).
--   * Unsigned numbers are ℕ with `u8`, `u16` and `u32` where C wraps, signed ones are ℤ with `i16`,
--     `i32` and `i64`. A `uint8_t` used as a flag is a Bool.
--   * `float` is a parameter, an instance of `Float`; theorems that need more than its operations
--     take `IsFloat`, a few laws that hold of IEEE 754 with its rounding, infinities and NaN. They
--     are met by the instance `micro`, at which the runs are made.
--   * Guards against a null pointer are left out where every caller passes the address of a static
--     object. A null port or timer is kept, as the address 0.
--   * The vendor's IMU driver is a parameter too (`Vendor`), with its own state; what its calls do is
--     not assumed. The same holds of what the IMU task calls of the kernel (`Outside`).
--   * Fuel is used for the loops that wrap an angle and for those of the IMU task: `none` is a loop that
--     has not ended. The fuel that is enough for an angle depends on it and is the subject of
--     Control.Chassis.Angle and of `wrap_degrees_ends` in Imu.Rest; a wait for a sample needs one
--     look more than its time in ticks, if time moves on between two looks (Imu.Wait). A theorem on a
--     tick of the chassis, and one on samples of the IMU, has it as a hypothesis that the angle is
--     wrapped. The bias calibration repeats until the car stands still, so no fuel is enough for it.
--     The write to a UART waits without a bound; one look more than the port is busy is enough for it
--     (Platform.Uart.Queue). The waits of the I2C and SPI drivers and of the display count down in
--     the source, and the fuel of the display's loops is the bytes or columns that they go over.
--
-- Not modelled: the build with an eighth line sensor; the vendor's IMU library; the text of the printed
-- reports; calls that only set up registers (SYSCFG_DL_init, System_Watchdog_Init); and the generated
-- device configuration.
pub mod Prelude
pub mod Float
pub mod Platform
pub mod Motor
pub mod Encoder
pub mod Control
pub mod Line
pub mod Telemetry
pub mod Imu
pub mod Rtt
pub mod Display
pub mod App
pub mod Vision
pub mod System
