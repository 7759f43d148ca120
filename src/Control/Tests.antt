-- ===== src/Control/Tests.antt =====
-- Runs of the controllers, and the theorems at concrete inputs.
use nuedc_control_car_freert.Prelude.{ℕ, zero, suc, ◌≡◌, ◌≤◌, refl, true, false, none, some, arith}
use nuedc_control_car_freert.Prelude.Int.{ℤ, pos, negsuc, ◌+ℤ◌, ◌-ℤ◌}
use nuedc_control_car_freert.Platform.{Reader}
use nuedc_control_car_freert.Encoder
use nuedc_control_car_freert.Encoder.{Encoders, EncoderPins}
use nuedc_control_car_freert.Motor.Board
use nuedc_control_car_freert.Motor.Board.{MotorBoard, MotorPins}
use nuedc_control_car_freert.Motor.Board.Bounds.{init-IsSafe}
use nuedc_control_car_freert.Float.{IsFloat, ◌≺◌, lit, zero_f, neg}
use nuedc_control_car_freert.Float.Micro.{micro, micro-IsFloat}
use nuedc_control_car_freert.Control.Pid
use nuedc_control_car_freert.Control.Pid.{Pid, integral_limit, update, reset}
use nuedc_control_car_freert.Control.Pid.Bounds.{IsWithin}
use nuedc_control_car_freert.Control.Chassis.{
  Chassis, normalize_config, wrap_pi, wrap_down, wrap_up, integrate_odometry, pi, update_speed_pid,
}
use nuedc_control_car_freert.Control.Chassis.Normal.{normalize_config_id, normalize_config-IsNormal}
use nuedc_control_car_freert.Control.Chassis.Angle.{turns_on, turns_back}
use nuedc_control_car_freert.Control.Chassis.Tuning.{done}
use nuedc_control_car_freert.Control.Chassis.Correction.{correction_bounds}
use nuedc_control_car_freert.Control.Chassis.Drive.{drive, measure, tick}
use nuedc_control_car_freert.Control.Chassis.Stop.{IsCleared, tick_idle}
use nuedc_control_car_freert.Control.Chassis.Setup
use nuedc_control_car_freert.Control.Chassis.Setup.{zero_config, set_debug_duty}

instance micro_laws : IsFloat ℤ
micro_laws = micro-IsFloat

-- a controller with the gains and limits of the wheels
abbrev pub wheel_pid : Pid ℤ
wheel_pid = Pid.init (lit 8 0) (lit 1 1) zero_f (neg (lit 120 0)) (lit 120 0)

-- the car as it starts, with the configuration of the firmware
abbrev car : Chassis ℤ
car = Setup.init none (lit 8 0) (lit 1 1) zero_f

-- the left wheel has moved 10 steps, the right 12
abbrev wheels_moved : Encoders
wheels_moved = record {
  left = record (Encoder.fresh 0) { total = pos 10 };
  right = record (Encoder.fresh 0) { total = pos 12 };
}

abbrev low : Reader
low port mask = 0

abbrev motor_pins : MotorPins
motor_pins = record {
  pwm_inst = 1;
  pwm_channel = 0;
  dir_port1 = 2;
  dir_pin1 = 4;
  dir_port2 = 2;
  dir_pin2 = 8;
  enc_port = 3;
  enc_a_pin = 1;
  enc_b_pin = 2;
}

abbrev motors : MotorBoard
motors = (Board.init low motor_pins motor_pins).0

normalize_config_id_example :
    normalize_config (normalize_config (zero_config {F = ℤ})) ≡ normalize_config zero_config
normalize_config_id_example =
    normalize_config_id (normalize_config zero_config) (normalize_config-IsNormal zero_config)

-- 4 rad is one turn too far
abbrev four : ℤ
four = lit 4 0

not_too_low : (k : ℕ) → k ≤ 1 → turns_on 0 (turns_back k four) ≺ neg pi ≡ false
unfolding ◌-ℤ◌
not_too_low zero small = refl
not_too_low (suc zero) small = refl
not_too_low (suc (suc k)) small = absurd (omega arith)

correction_bounds_example :
    let limit = car.config.speed_correction_limit in
    IsWithin (neg limit) limit (update_speed_pid car.pid_left four zero_f true).1
    × IsWithin (neg limit) limit (update_speed_pid car.pid_right four zero_f true).1
correction_bounds_example =
    correction_bounds none (lit 8 0) (lit 1 1) zero_f car four zero_f true done

-- a debug duty of 700 and -50 for 300 ms from 1000 ms on
abbrev held_car : Chassis ℤ
held_car = set_debug_duty car (pos 700) (negsuc 49) 1000 300

abbrev moved_car : Chassis ℤ
moved_car = elim (measure 8 held_car wheels_moved).0 [ none ↦ car | some m ↦ m ]

tick_idle_example :
    let (c', b', calls) = drive moved_car false 1200 motors in
    (tick 8 held_car wheels_moved motors false 1200
      ≡ some (c', (measure 8 held_car wheels_moved).1, b', calls))
    × (b'.left.duty ≡ pos 700)
    × (b'.right.duty ≡ pos 0)
    × (b'.last_command_ms ≡ 1200)
    × (c'.debug_pwm_active ≡ true)
    × IsCleared c'
unfolding measure integrate_odometry wrap_pi wrap_down wrap_up ◌+ℤ◌ ◌-ℤ◌ set_debug_duty Setup.init
    Encoder.get_delta normalize_config
tick_idle_example =
    tick_idle 8 held_car moved_car wheels_moved motors 1200 (init-IsSafe low motor_pins motor_pins)
      refl
