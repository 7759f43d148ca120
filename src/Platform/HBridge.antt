-- ===== src/Platform/HBridge.antt =====
-- drv_hbridge_motor.c: PWM magnitude and the two direction pins of an H-bridge.
pub mod Spin
use nuedc_control_car_freert.Prelude.{ℕ, ◌^◌, Bool, true, false, List, [], ◌∷◌, ◌++◌, if◌then◌else◌}
use nuedc_control_car_freert.Prelude.Int.{ℤ, pos, negsuc, ltb_ℤ, neg_ℤ, clamp_ℤ, nat_abs}
use nuedc_control_car_freert.Prelude.Words.{i16, to_word}
use nuedc_control_car_freert.Platform.{Call}
use nuedc_control_car_freert.Platform.Gpio
use nuedc_control_car_freert.Platform.Gpio.{GpioPin}
use nuedc_control_car_freert.Platform.Pwm
use nuedc_control_car_freert.Platform.Pwm.{PwmChannel}

-- `direction` is an int8_t of which only the sign matters.
pub record HBridgeMotor : Type 0 where
  pub pwm : PwmChannel
  pub in1 : GpioPin
  pub in2 : GpioPin
  pub direction : ℤ

abbrev pub is_zero : ℤ → Bool
is_zero z = if ltb_ℤ z (pos 0) then false else if ltb_ℤ (pos 0) z then false else true

-- `clamp_duty`, HBRIDGE_DUTY_MAX being 1000
unfoldable pub clamp_duty : ℤ → ℤ
clamp_duty duty = clamp_ℤ (negsuc 999) (pos 1000) duty

unfoldable pub coast : HBridgeMotor → List Call
coast m =
    Pwm.set_duty_permille m.pwm 0 ++ (Gpio.write_raw m.in1 false ++ Gpio.write_raw m.in2 false)

unfoldable pub start : HBridgeMotor → List Call
start m = Pwm.set_duty_permille m.pwm 0 ++ (coast m ++ Pwm.start m.pwm)

unfoldable pub brake : HBridgeMotor → List Call
brake m = Pwm.set_duty_permille m.pwm 0 ++ (Gpio.write_raw m.in1 true ++ Gpio.write_raw m.in2 true)

-- the two branches of the last test of `Drv_HBridgeMotor_SetSignedDuty`; a duty is an int16_t and a
-- magnitude a uint16_t
unfoldable pub drive : HBridgeMotor → ℤ → List Call
drive m duty =
    if ltb_ℤ (pos 0) duty
    then Gpio.write_raw m.in1 false
      ++ (Gpio.write_raw m.in2 true ++ Pwm.set_duty_permille m.pwm (to_word (2 ^ 16) duty))
    else Gpio.write_raw m.in1 true
      ++ (Gpio.write_raw m.in2 false ++ Pwm.set_duty_permille m.pwm (to_word (2 ^ 16) (neg_ℤ duty)))

unfoldable pub set_signed_duty : HBridgeMotor → ℤ → List Call
set_signed_duty m d =
    let duty = clamp_duty d in
    let direction : ℤ = if is_zero m.direction then pos 1 else m.direction in
    if is_zero duty
    then coast m
    else drive m (if ltb_ℤ direction (pos 0) then i16 (neg_ℤ duty) else duty)
