-- ===== src/Telemetry.antt =====
-- modules/telemetry/telemetry.c: the requests that the command parser leaves for the other tasks,
-- each taken once.
pub mod Number
pub mod Commands
pub mod Emit
pub mod DebugUart
mod Tests
use nuedc_control_car_freert.Prelude.{ℕ, Bool, false, Option, none, some, if◌then◌else◌}
use nuedc_control_car_freert.Prelude.Int.{ℤ}

-- `TelemetryDutyRequest_t`
pub record DutyRequest : Type 0 where
  pub left_pwm : ℤ
  pub right_pwm : ℤ
  pub hold_ms : ℕ

-- `TelemetryImuCalRequest_t`
pub data ImuCalRequest : Type 0 where
  cal_none : ImuCalRequest
  cal_start : ImuCalRequest
  cal_cancel : ImuCalRequest

-- `s_start_request`, `s_stop_request`, `s_duty_request_pending`, `s_imu_cal_request` and
-- `s_duty_request`
pub record Requests : Type 0 where
  pub start : Bool
  pub stop : Bool
  pub duty_pending : Bool
  pub imu_cal : ImuCalRequest
  pub duty : DutyRequest

unfoldable pub consume_start : Requests → Requests × Bool
consume_start r = (record r { start = false }, r.start)

unfoldable pub consume_stop : Requests → Requests × Bool
consume_stop r = (record r { stop = false }, r.stop)

unfoldable pub consume_duty : Requests → Requests × Option DutyRequest
consume_duty r =
    if r.duty_pending then (record r { duty_pending = false }, some r.duty) else (r, none)

unfoldable pub consume_imu_cal : Requests → Requests × ImuCalRequest
consume_imu_cal r = (record r { imu_cal = cal_none }, r.imu_cal)
