-- ===== src/App/Tests.antt =====
-- Runs of the application, and the theorems at concrete inputs.
use nuedc_control_car_freert.Imu.Setters.{reset_sample_low_pass, set_gyro_scale}
use nuedc_control_car_freert.Telemetry.Emit.{tick}
use nuedc_control_car_freert.Prelude.{
  ℕ, ◌+◌, ◌≡◌, refl, ap, ◌∙◌, true, false, none, some, List, [], ◌∷◌, ◌++◌, arith,
}
use nuedc_control_car_freert.Prelude.Int.{ℤ, pos, ◌+ℤ◌, ◌-ℤ◌}
use nuedc_control_car_freert.Platform.{Call}
use nuedc_control_car_freert.Encoder
use nuedc_control_car_freert.Encoder.{Encoders, EncoderPins}
use nuedc_control_car_freert.Motor.Board.Bounds.{init-IsSafe}
use nuedc_control_car_freert.Control.Chassis.{
  Chassis, integrate_odometry, wrap_pi, wrap_down, wrap_up, normalize_config,
}
use nuedc_control_car_freert.Control.Chassis.Setup
use nuedc_control_car_freert.Control.Chassis.Drive.{measure}
use nuedc_control_car_freert.Telemetry.{
  consume_stop, consume_start, consume_duty, cal_none, consume_imu_cal,
}
use nuedc_control_car_freert.App.{
  World, idle, state_tick, take_stop, take_start, take_duty, control_round,
}
use nuedc_control_car_freert.App.Requested.{mode, decide, state_tick_refines}
use nuedc_control_car_freert.App.Rounds.{halted, control_round_idle, stop_keeps_debug}
use nuedc_control_car_freert.App.Tasks.{telemetry_round, fast_round}
use nuedc_control_car_freert.App.Composed.{operator_calibrates, failing_imu_blocks_start}
use nuedc_control_car_freert.Telemetry.Commands
use nuedc_control_car_freert.Telemetry.Commands.{codes}
use nuedc_control_car_freert.Telemetry.Commands.Lines.{feed}
use nuedc_control_car_freert.System.Health
use nuedc_control_car_freert.Imu.State.{Device, reset_attitude}
use nuedc_control_car_freert.Imu.Driver.{get_data_ready}
use nuedc_control_car_freert.Imu.Wait.{Outside, look, wait_sample, wait_and_update_imu}
use nuedc_control_car_freert.Imu.Calibration.{
  Service, wait_still, positive_active, service_yaw_requests, request_yaw_calibration, serve_start,
  serve_cancel, start_yaw_calibration, set_scale_z,
}
use nuedc_control_car_freert.Imu.Task.{Snapshot, ready, publish_snapshot, service_round}
use nuedc_control_car_freert.Float.Micro.{micro}
use nuedc_control_car_freert.App.Example.{
  low, motor_pins, inputs, no_requests, held, at_rest, calm, memory, bindings, asked_to_start,
  no_snapshot,
}

abbrev stopping : World ℤ
stopping = record held { requests = record no_requests { stop = true } }

state_tick_refines_example : mode (state_tick inputs 5 stopping).0 ≡ decide (mode stopping)
state_tick_refines_example = state_tick_refines inputs 5 stopping

-- the chassis after the measurements of the round
abbrev measured : Chassis ℤ
measured = elim (measure 8 (halted stopping).ctx.chassis stopping.encoders).0 [
  | none ↦ stopping.ctx.chassis
  | some m ↦ m
]

stop_keeps_debug_example :
    (w' : World ℤ) × (calls : List Call) × (control_round 8 inputs 1200 stopping ≡ some (w', calls))
    × (w'.ctx.state ≡ idle)
    × (w'.motors.left.duty ≡ pos 700)
    × (w'.motors.right.duty ≡ pos 0)
unfolding Setup.set_debug_duty measure integrate_odometry wrap_pi wrap_down wrap_up ◌+ℤ◌ ◌-ℤ◌
    Setup.set_target_speeds Setup.init Encoder.get_delta normalize_config
stop_keeps_debug_example =
    stop_keeps_debug 8 inputs 1200 stopping measured refl refl refl refl
      (init-IsSafe low motor_pins motor_pins) refl

abbrev resting : Chassis ℤ
resting = elim (measure 8 (halted at_rest).ctx.chassis at_rest.encoders).0 [
  | none ↦ at_rest.ctx.chassis
  | some m ↦ m
]

rests : (state_tick inputs 1200 at_rest).0 ≡ at_rest
unfolding state_tick take_stop take_start take_duty consume_stop consume_start consume_duty
rests = refl

resting_lem : (measure 8 (halted at_rest).ctx.chassis at_rest.encoders).0 ≡ some resting
unfolding measure integrate_odometry wrap_pi wrap_down wrap_up ◌+ℤ◌ ◌-ℤ◌ Setup.set_target_speeds
    Setup.init Encoder.get_delta normalize_config
resting_lem = refl

control_round_idle_example :
    (w' : World ℤ) × (calls : List Call) × (control_round 8 inputs 1200 at_rest ≡ some (w', calls))
    × (w'.motors.left.duty ≡ pos 0)
    × (w'.motors.right.duty ≡ pos 0)
    × (w'.ctx.state ≡ idle)
unfolding state_tick take_stop take_start take_duty consume_stop consume_start consume_duty
    Setup.init
control_round_idle_example =
    control_round_idle 8 inputs 1200 at_rest resting refl (init-IsSafe low motor_pins motor_pins)
      (ap (λ v. (measure 8 (halted v).ctx.chassis v.encoders).0) rests ∙ resting_lem)

-- a chip whose answer is an error, on a clock of one tick a sleep
abbrev outside : Outside ℕ
outside = record {
  vendor = record {
    who_am_i = λ n. (n, 4, 0);
    setup = λ n call. (n, 4);
    int_status = λ n. (n, 4, false);
    register_data = λ n. (
      n,
      4,
      record {
        accel = record { x = pos 0; y = pos 0; z = pos 0 };
        gyro = record { x = pos 0; y = pos 0; z = pos 0 };
        temp = pos 0;
      },
    );
  };
  data_ready = λ n. (n, true);
  tick_count = λ n. (n, n);
  heartbeat = λ n. n;
  sleep = λ n ticks. n + ticks;
}

-- a calibration is already open
abbrev busy : Service ℤ
busy = record calm {
  imu = record calm.imu { ready = true };
  yaw_cal = record calm.yaw_cal { state = positive_active };
}

-- the handle of a calibration that has just been started
abbrev restarted : Device ℤ
restarted = (service_yaw_requests (request_yaw_calibration busy)).imu

operator_calibrates_example :
    let heard = (feed Commands.start (codes "$IMUCAL,START" ++ 10 ∷ [])).0 in
    let (told, asked, beaten, reports) =
      telemetry_round memory bindings 20 heard busy (Health.init 0) in
    (told.requests.imu_cal ≡ cal_none)
    × (last : ℕ) × (after : Service ℤ) × (shown : Snapshot ℤ) × (service_round outside 0 1 7 asked
          no_snapshot
        ≡ some (last, after, shown))
    × (after.yaw_cal.state ≡ wait_still)
    × (after.start_requested ≡ false)
    × (shown.yaw_cal_state ≡ wait_still)
unfolding telemetry_round wait_and_update_imu wait_sample look get_data_ready service_yaw_requests
    serve_start serve_cancel consume_imu_cal tick Commands.on_rx_byte Commands.on_newline
    Commands.handle_line Commands.handle_command Commands.store request_yaw_calibration
    start_yaw_calibration reset_attitude reset_sample_low_pass set_scale_z set_gyro_scale
operator_calibrates_example =
    operator_calibrates memory bindings 20 Commands.start busy (Health.init 0) outside 0 1 7 7
      no_snapshot restarted 4 refl refl refl

failing_imu_blocks_start_example :
    let copied =
      (fast_round inputs 10 asked_to_start
        (publish_snapshot 9 calm no_snapshot ready 4)
        (Health.init 0)).0 in
    let started = (take_start inputs 12 copied).0 in
    (started.ctx.state ≡ idle) × (started.requests.start ≡ false)
failing_imu_blocks_start_example =
    failing_imu_blocks_start inputs 9 10 12 asked_to_start calm no_snapshot ready 4 (Health.init 0)
      (omega arith)
