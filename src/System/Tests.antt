-- ===== src/System/Tests.antt =====
-- Runs of the health monitor, and the theorems at concrete inputs.
use Prim.Native.Nat.{min}
use nuedc_control_car_freert.Prelude.{◌≡◌, refl, true, List, [], ◌∷◌, arith}
use nuedc_control_car_freert.Prelude.Int.{pos}
use nuedc_control_car_freert.Motor.Board.{motor_config, MotorPins}
use nuedc_control_car_freert.Motor.Board.Bounds.{IsSafe}
use nuedc_control_car_freert.Motor.Device
use nuedc_control_car_freert.Motor.Device.{DevMotor}
use nuedc_control_car_freert.System.Fault
use nuedc_control_car_freert.System.Fault.{FaultState, imu_fault, task_stale}
use nuedc_control_car_freert.System.Health
use nuedc_control_car_freert.System.Health.{
  HealthState, stale_mask, overdue, deadlines, mask_of, is_graced, beat, task_imu, task_fast_io,
  task_control, task_telemetry,
}
use nuedc_control_car_freert.System.Guard.{
  Safety, SafetyStep, IsStill, health_step, beat_step, command_step, run, command, health_round,
  fault_locks_watchdog, health_round_stale, command_after_stale,
}

-- the fast task last beat 60 milliseconds ago
abbrev late : HealthState
late = record { last_beat_ms = 4990 ∷ 4940 ∷ 4995 ∷ 4900 ∷ []; started_ms = 0 }

abbrev wiring : MotorPins
wiring = record {
  pwm_inst = 1;
  pwm_channel = 0;
  dir_port1 = 2;
  dir_pin1 = 4;
  dir_port2 = 2;
  dir_pin2 = 8;
  enc_port = 3;
  enc_a_pin = 1;
  enc_b_pin = 2;
}

abbrev spinning : DevMotor
spinning = record {
  config = motor_config wiring;
  encoder = Device.zero_encoder;
  duty = pos 500;
  started = true;
}

abbrev car : Safety
car = record {
  health = late;
  fault = record { code = Fault.no_fault; detail = 0 };
  motors = record { left = spinning; right = spinning; last_command_ms = 4990 };
  tick_ms = 4999;
  feeds = 12;
}

abbrev faulty : Safety
faulty = record car { fault = record { code = imu_fault; detail = 3 } }

car-IsSafe : IsSafe car.motors
car-IsSafe = ground arith

late_mask : stale_mask late 5000 ≡ 2
unfolding stale_mask
late_mask = refl

fault_locks_watchdog_example :
    let s = run faulty (beat_step 1 5000 ∷ health_step 5001 ∷ command_step 5002 0 (pos 9) ∷ []) in
    (s.fault ≡ faulty.fault) × (s.feeds ≡ 12)
unfolding Fault.is_active
fault_locks_watchdog_example =
    fault_locks_watchdog faulty
      (beat_step 1 5000 ∷ health_step 5001 ∷ command_step 5002 0 (pos 9) ∷ []) refl

health_round_stale_example :
    IsStill (health_round 5000 car).motors
    × (Fault.is_active (health_round 5000 car).fault ≡ true)
    × ((health_round 5000 car).feeds ≡ 12)
unfolding Health.check
health_round_stale_example = health_round_stale 5000 car car-IsSafe refl

-- another late round, the other motor, and a late heartbeat
abbrev meanwhile : List SafetyStep
meanwhile = health_step 5100 ∷ command_step 5101 1 (pos 50) ∷ beat_step 1 5102 ∷ []

command_after_stale_example :
    let stale = health_round 5000 car in
    let t = command 5110 0 (pos 300) (run stale meanwhile) in
    IsStill stale.motors
    × (t.motors.left.duty ≡ pos (min 300 1000))
    × (Fault.is_active t.fault ≡ true)
    × (t.feeds ≡ 12)
unfolding Health.check
command_after_stale_example = command_after_stale 5000 5110 300 car meanwhile car-IsSafe refl
