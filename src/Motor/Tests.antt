-- ===== src/Motor/Tests.antt =====
-- Runs of the motor board, and the theorems at concrete inputs.
use nuedc_control_car_freert.Prelude.{
  ◌-◌, ◌^◌, ◌≡◌, refl, true, false, ◌&&◌, [], ◌∷◌, arith, ltb, some, none,
}
use nuedc_control_car_freert.Prelude.Int.{pos, negsuc}
use nuedc_control_car_freert.Platform.{level}
use nuedc_control_car_freert.Platform.Gpio
use nuedc_control_car_freert.Platform.HBridge
use nuedc_control_car_freert.Platform.HBridge.{HBridgeMotor}
use nuedc_control_car_freert.Platform.HBridge.Spin.{IsWired, Commands}
use nuedc_control_car_freert.Platform.Pwm
use nuedc_control_car_freert.Platform.Pwm.{
  PwmChannel, on_ticks, on_ticks_lem, compare_value, clamp_u32,
}
use nuedc_control_car_freert.Motor.Device
use nuedc_control_car_freert.Motor.Device.{DevMotor}
use nuedc_control_car_freert.Motor.Board.{MotorBoard, MotorPins, motor_config, is_moving, set_duty}
use nuedc_control_car_freert.Motor.Board.Bounds.{IsSafe}
use nuedc_control_car_freert.Motor.Board.Timeout.{ticks, all_within, ticks_stop}
use nuedc_control_car_freert.Motor.Board.Output.{set_duty_drives}

abbrev left_pins : MotorPins
left_pins = record {
  pwm_inst = 1;
  pwm_channel = 0;
  dir_port1 = 2;
  dir_pin1 = 4;
  dir_port2 = 2;
  dir_pin2 = 8;
  enc_port = 3;
  enc_a_pin = 1;
  enc_b_pin = 2;
}

abbrev out : HBridgeMotor
out = (motor_config left_pins).output

abbrev half_speed : DevMotor
half_speed = record {
  config = motor_config left_pins;
  encoder = Device.zero_encoder;
  duty = pos 500;
  started = true;
}

abbrev rolling : MotorBoard
rolling = record { left = half_speed; right = half_speed; last_command_ms = 2 ^ 32 - 10 }

rolling-IsSafe : IsSafe rolling
rolling-IsSafe = ground arith

out-IsWired : IsWired out
out-IsWired = ground arith

backwards_raises_second : level 2 8 (HBridge.set_signed_duty out (negsuc 9)) none ≡ some true
unfolding HBridge.set_signed_duty HBridge.clamp_duty HBridge.drive Gpio.write_raw
    Pwm.set_duty_permille
backwards_raises_second = refl

ticks_stop_example :
    is_moving (ticks rolling (20 ∷ 60 ∷ 101 ∷ []))
    ≡ (is_moving rolling && all_within 100 (20 ∷ 60 ∷ 101 ∷ []))
ticks_stop_example =
    ticks_stop rolling (20 ∷ 60 ∷ 101 ∷ []) rolling-IsSafe (omega arith) (omega arith)

set_duty_drives_example :
    Commands out (set_duty 7 rolling 0 (pos 420)).1 (ltb 0 420) false 420
    × (on_ticks out.pwm 420 ≡ 420)
set_duty_drives_example =
    set_duty_drives 7 rolling 0 (pos 420) left_pins rolling-IsSafe.left_safe refl out-IsWired
