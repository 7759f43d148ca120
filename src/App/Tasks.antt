-- ===== src/App/Tasks.antt =====
-- app/app_tasks.c: the rounds of the fast task and of the telemetry task, which join the control task to
-- the IMU and to the operator.
use nuedc_control_car_freert.Prelude.{ℕ, Bool, true, false, ◌&&◌, List, ◌==◌}
use nuedc_control_car_freert.Platform.{Call}
use nuedc_control_car_freert.Encoder
use nuedc_control_car_freert.Motor.Board
use nuedc_control_car_freert.System.Health
use nuedc_control_car_freert.System.Health.{HealthState, task_fast_io, task_telemetry}
use nuedc_control_car_freert.Telemetry.{
  ImuCalRequest, cal_none, cal_start, cal_cancel, consume_imu_cal,
}
use nuedc_control_car_freert.Telemetry.Commands.{Telemetry}
use nuedc_control_car_freert.Telemetry.Emit.{Bindings, Memory, Report, tick}
use nuedc_control_car_freert.Imu.State.{Axes}
use nuedc_control_car_freert.Imu.Driver.{imu_ok}
use nuedc_control_car_freert.Imu.Calibration.{
  Service, request_yaw_calibration, cancel_yaw_calibration,
}
use nuedc_control_car_freert.Imu.Task.{
  ImuState, off, initializing, calibrating, ready, fault, Snapshot,
}
use nuedc_control_car_freert.App.{World, Inputs}
use nuedc_control_car_freert.Float.{Float}

abbrev pub is_ready_state : ImuState → Bool
is_ready_state off = false
is_ready_state initializing = false
is_ready_state calibrating = false
is_ready_state ready = true
is_ready_state fault = false

-- the copies of the attitude in `AppContext_t`
pub record AttitudeCopy (F : Type 0) : Type 0 where
  pub pitch_deg : F
  pub roll_deg : F
  pub yaw_deg : F
  pub gyro_dps : Axes F
  pub accel_g : Axes F

module _ {F : Type 0} ⦃f : Float F⦄ where
  unfoldable pub copy_imu_snapshot : World F → Snapshot F → World F × AttitudeCopy F
  copy_imu_snapshot w s = (
    record w {
      ctx = record w.ctx { imu_ready = s.is_ready && is_ready_state s.state && s.status == imu_ok };
    },
    record {
      pitch_deg = s.pitch_deg;
      roll_deg = s.roll_deg;
      yaw_deg = s.yaw_deg;
      gyro_dps = s.gyro_dps;
      accel_g = s.accel_g;
    },
  )

  -- the loop body of `fast_task`
  unfoldable pub fast_round :
      Inputs
      → ℕ
      → World F
      → Snapshot F
      → HealthState
      → World F × AttitudeCopy F × HealthState × List Call
  fast_round i now w s health =
      let encoders = Encoder.poll i.reader i.left_pins i.right_pins w.encoders in
      let (motors, calls) = Board.safety_tick now w.motors in
      let (copied, attitude) =
        copy_imu_snapshot (record w { encoders = encoders; motors = motors }) s in
      (copied, attitude, Health.beat health task_fast_io now, calls)

  -- the calls of the IMU service that a request asks for
  abbrev pub pass_on : ImuCalRequest → Service F → Service F
  pass_on cal_none s = s
  pass_on cal_start s = request_yaw_calibration s
  pass_on cal_cancel s = cancel_yaw_calibration s

  -- the loop body of `telemetry_task`
  unfoldable pub telemetry_round :
      Memory F
      → Bindings
      → ℕ
      → Telemetry
      → Service F
      → HealthState
      → Telemetry × Service F × HealthState × List (Report F)
  telemetry_round m b now t s health =
      let (ticked, reports) = tick m b t now in
      let (requests, wanted) = consume_imu_cal ticked.requests in
      (
        record ticked { requests = requests },
        pass_on wanted s,
        Health.beat health task_telemetry now,
        reports,
      )
