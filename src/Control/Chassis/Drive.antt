-- ===== src/Control/Chassis/Drive.antt =====
-- control/chassis.c: `Control_Chassis_Tick` in the build with encoders.
use nuedc_control_car_freert.Prelude.{
  ℕ, Bool, true, false, List, ◌++◌, Option, and_then, some, if◌then◌else◌, leb,
}
use nuedc_control_car_freert.Prelude.Int.{ℤ, pos}
use nuedc_control_car_freert.Prelude.Words.{sub32}
use nuedc_control_car_freert.Platform.{Call}
use nuedc_control_car_freert.Encoder
use nuedc_control_car_freert.Encoder.{Encoders}
use nuedc_control_car_freert.Motor.Board
use nuedc_control_car_freert.Motor.Board.{MotorBoard}
use nuedc_control_car_freert.Control.Pid
use nuedc_control_car_freert.Control.Pid.{Pid}
use nuedc_control_car_freert.Control.Chassis.{
  Chassis, clampf, feedforward_pwm, update_speed_pid, integrate_odometry,
}
use nuedc_control_car_freert.Control.Chassis.Setup.{clear_debug_duty}
use nuedc_control_car_freert.Float.{Float, ◌⊕◌, ◌⊘◌, ◌≺◌, lit, zero_f, abs}

-- `BSP_Motor_SetDuty(0, l); BSP_Motor_SetDuty(1, r);`
unfoldable pub set_duties : ℕ → MotorBoard → ℤ → ℤ → MotorBoard × List Call
set_duties now b l r =
    let (first, calls_l) = Board.set_duty now b 0 l in
    let (second, calls_r) = Board.set_duty now first 1 r in (second, calls_l ++ calls_r)

module _ {F : Type 0} ⦃f : Float F⦄ where
  -- the controller of one wheel and its correction, with the feed-forward part `ff`
  unfoldable pub correct : Pid F → F → F → F → Bool → Pid F × F
  correct pid ff target measured allow_integral =
      if zero_f ≺ ff
      then update_speed_pid pid target measured allow_integral
      else (Pid.reset pid, zero_f)

  -- (int16_t)(clampf_local(x, 0.0f, limit) + 0.5f)
  unfoldable pub wheel_pwm : F → F → ℤ
  wheel_pwm limit x = f.to_i16 (clampf x zero_f limit ⊕ lit 5 1)

  -- the start of speed control: `if (!chassis->speed_control_active) { ... }`
  unfoldable pub activate : Chassis F → ℕ → Chassis F
  activate c now = if c.speed_control_active then c else record c {
    speed_control_active = true;
    speed_control_started_ms = now;
    pid_left = Pid.reset c.pid_left;
    pid_right = Pid.reset c.pid_right;
  }

  -- the branch `run`: the chassis and the two duties
  unfoldable pub control : Chassis F → ℕ → Chassis F × ℤ × ℤ
  control c now =
      let a = activate c now in
      let cfg = a.config in
      let allow = leb cfg.integral_delay_ms (sub32 now a.speed_control_started_ms) in
      let ff_left =
        feedforward_pwm a.target_speed_left cfg.feedforward_left_slope cfg.feedforward_left_offset
          cfg.forward_min_pulse in
      let ff_right =
        feedforward_pwm a.target_speed_right cfg.feedforward_right_slope
          cfg.feedforward_right_offset cfg.forward_min_pulse in
      let (pid_left, correction_left) =
        correct a.pid_left ff_left a.target_speed_left a.measured_speed_left allow in
      let (pid_right, correction_right) =
        correct a.pid_right ff_right a.target_speed_right a.measured_speed_right allow in
      (
        record a { pid_left = pid_left; pid_right = pid_right },
        wheel_pwm cfg.speed_out_limit (ff_left ⊕ correction_left ⊕ a.dead_zone_left),
        wheel_pwm cfg.speed_out_limit (ff_right ⊕ correction_right ⊕ a.dead_zone_right),
      )

  -- what both branches without `run` begin with
  unfoldable pub deactivate : Chassis F → Chassis F
  deactivate c = record c {
    speed_control_active = false;
    pid_left = Pid.reset c.pid_left;
    pid_right = Pid.reset c.pid_right;
  }

  -- the three branches of the tick: the chassis and the two duties that it commands
  unfoldable pub command : Chassis F → Bool → ℕ → Chassis F × ℤ × ℤ
  command c run now =
      let idle = deactivate c in
      if run
      then control c now
      else if c.debug_pwm_active
      then (if leb c.debug_pwm_deadline_ms now
          then (clear_debug_duty idle, pos 0, pos 0)
          else (idle, c.debug_pwm_left, c.debug_pwm_right))
      else (idle, pos 0, pos 0)

  -- The tick up to the branches: the encoders are read and the odometry and speeds updated.
  unfoldable pub measure : ℕ → Chassis F → Encoders → Option (Chassis F) × Encoders
  measure fuel c e =
      let (first, delta_left) = Encoder.get_delta e 0 in
      let (second, delta_right) = Encoder.get_delta first 1 in
      let meas_left = abs (f.of_int delta_left) in
      let meas_right = abs (f.of_int delta_right) in
      let moved =
        integrate_odometry fuel c (meas_left ⊘ c.config.left_pulses_per_cm)
          (meas_right ⊘ c.config.right_pulses_per_cm) in
      (
        and_then moved (λ m.
            some (record m { measured_speed_left = meas_left; measured_speed_right = meas_right })),
        second,
      )

  -- the rest of the tick
  unfoldable pub drive : Chassis F → Bool → ℕ → MotorBoard → Chassis F × MotorBoard × List Call
  drive c run now b =
      let (next, left, right) = command c run now in
      let (board, calls) = set_duties now b left right in (next, board, calls)

  -- `none` when the angle is not wrapped within the fuel
  unfoldable pub tick :
      ℕ
      → Chassis F
      → Encoders
      → MotorBoard
      → Bool
      → ℕ
      → Option (Chassis F × Encoders × MotorBoard × List Call)
  tick fuel c e b run now =
      let (measured, encoders) = measure fuel c e in
      and_then measured
        (λ m. let (next, board, calls) = drive m run now b in some (next, encoders, board, calls))
