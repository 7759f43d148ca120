-- ===== src/Motor/Board.antt =====
-- modules/motor/bsp_motor.c: the two motors of the car. `now` is `Drv_Time_Millis()`, the tick
-- count that the tasks keep. `BSP_Motor_Standby` does nothing (the pin is tied high), and with it
-- `refresh_standby`.
pub mod Bounds
pub mod Timeout
pub mod Output
use nuedc_control_car_freert.Prelude.{
  ℕ, Bool, true, false, ◌&&◌, ◌||◌, not, List, [], ◌∷◌, ◌++◌, ltb, ◌==◌, if◌then◌else◌,
}
use nuedc_control_car_freert.Prelude.Int.{ℤ, pos, negsuc, ltb_ℤ, clamp_ℤ}
use nuedc_control_car_freert.Prelude.Words.{sub32}
use nuedc_control_car_freert.Platform.{Call, Reader}
use nuedc_control_car_freert.Platform.Gpio.{GpioPin}
use nuedc_control_car_freert.Platform.HBridge.{is_zero}
use nuedc_control_car_freert.Motor.Device
use nuedc_control_car_freert.Motor.Device.{DevMotor, DevMotorConfig}

-- PWM_MAX and MOTOR_COMMAND_TIMEOUT_MS
abbrev pub pwm_max : ℕ
pwm_max = 1000

abbrev pub command_timeout_ms : ℕ
command_timeout_ms = 100

-- The addresses that SysConfig generates for one motor (pin_map.h names them).
pub record MotorPins : Type 0 where
  pub pwm_inst : ℕ
  pub pwm_channel : ℕ
  pub dir_port1 : ℕ
  pub dir_pin1 : ℕ
  pub dir_port2 : ℕ
  pub dir_pin2 : ℕ
  pub enc_port : ℕ
  pub enc_a_pin : ℕ
  pub enc_b_pin : ℕ

abbrev gpio : ℕ → ℕ → GpioPin
gpio port pin = record { port = port; pin = pin; active_low = false }

-- an entry of `s_motor_config`
abbrev pub motor_config : MotorPins → DevMotorConfig
motor_config p = record {
  output = record {
    pwm = record {
      timer = p.pwm_inst;
      channel = p.pwm_channel;
      period_ticks = pwm_max;
      active_low = true;
    };
    in1 = gpio p.dir_port1 p.dir_pin1;
    in2 = gpio p.dir_port2 p.dir_pin2;
    direction = negsuc 0;
  };
  encoder = record {
    phase_a = gpio p.enc_port p.enc_a_pin;
    phase_b = gpio p.enc_port p.enc_b_pin;
    direction = pos 1;
  };
  max_duty = pos pwm_max;
  has_encoder = true;
}

-- `s_motor` and `s_last_command_ms`
pub record MotorBoard : Type 0 where
  pub left : DevMotor
  pub right : DevMotor
  pub last_command_ms : ℕ

-- `motor_index`: every channel but 0 is the right motor.
abbrev pub is_left : ℕ → Bool
is_left ch = ch == 0

unfoldable pub init : Reader → MotorPins → MotorPins → MotorBoard × List Call
init read_pins l r =
    let (left, calls_l) = Device.start read_pins (Device.init read_pins (motor_config l)) in
    let (right, calls_r) = Device.start read_pins (Device.init read_pins (motor_config r)) in
    (record { left = left; right = right; last_command_ms = 0 }, calls_l ++ calls_r)

unfoldable pub set_signed_duty : ℕ → MotorBoard → ℕ → ℤ → MotorBoard × List Call
set_signed_duty now b ch d =
    let duty = clamp_ℤ (negsuc 999) (pos pwm_max) d in
    if is_left ch
    then (
      record b { left = (Device.set_signed_duty b.left duty).0; last_command_ms = now },
      (Device.set_signed_duty b.left duty).1,
    )
    else (
      record b { right = (Device.set_signed_duty b.right duty).0; last_command_ms = now },
      (Device.set_signed_duty b.right duty).1,
    )

-- the two tests of `BSP_Motor_SetDuty`: no more than full speed, and never backwards
abbrev pub forward_only : ℤ → ℤ
forward_only d =
    let capped = if ltb_ℤ (pos pwm_max) d then pos pwm_max else d in
    if ltb_ℤ capped (pos 0) then pos 0 else capped

unfoldable pub set_duty : ℕ → MotorBoard → ℕ → ℤ → MotorBoard × List Call
set_duty now b ch d = set_signed_duty now b ch (forward_only d)

unfoldable pub brake : MotorBoard → ℕ → MotorBoard × List Call
brake b ch =
    if is_left ch
    then (record b { left = (Device.brake b.left).0 }, (Device.brake b.left).1)
    else (record b { right = (Device.brake b.right).0 }, (Device.brake b.right).1)

abbrev pub is_moving : MotorBoard → Bool
is_moving b = not (is_zero (Device.get_duty b.left)) || not (is_zero (Device.get_duty b.right))

unfoldable pub safety_tick : ℕ → MotorBoard → MotorBoard × List Call
safety_tick now b =
    let (left, calls_l) = Device.set_signed_duty b.left (pos 0) in
    let (right, calls_r) = Device.set_signed_duty b.right (pos 0) in
    if is_moving b && ltb command_timeout_ms (sub32 now b.last_command_ms)
    then (record b { left = left; right = right }, calls_l ++ calls_r)
    else (b, [])
