-- ===== src/Control/Chassis.antt =====
-- control/chassis.c, in the default build with wheel encoders: the odometry and the speed control of
-- the two wheels. The state is the chassis with the encoders and the motors that it drives;
-- `BSP_Motor_SetDuty` reads the same millisecond count `now` as the caller. The loops of
-- `wrap_pi_local` run on fuel, and `none` stands for a loop that is still running then.
pub mod Setup
pub mod Drive
pub mod OpenLoop
pub mod Normal
pub mod Tuning
pub mod Stop
pub mod Correction
pub mod Angle
use nuedc_control_car_freert.Prelude.{
  ℕ, zero, suc, ◌+◌, ◌||◌, Bool, true, false, not, and_then, List, ◌++◌, Option, none, some,
  if◌then◌else◌, leb, ◌==◌,
}
use nuedc_control_car_freert.Prelude.Int.{ℤ, pos}
use nuedc_control_car_freert.Prelude.Words.{u32, sub32}
use nuedc_control_car_freert.Platform.{Call, Reader}
use nuedc_control_car_freert.Encoder
use nuedc_control_car_freert.Encoder.{Encoders, EncoderPins}
use nuedc_control_car_freert.Motor.Board
use nuedc_control_car_freert.Motor.Board.{MotorBoard}
use nuedc_control_car_freert.Control.Pid
use nuedc_control_car_freert.Control.Pid.{Pid}
use nuedc_control_car_freert.Float.{Float, ◌⊕◌, ◌⊖◌, ◌⊗◌, ◌⊘◌, ◌≺◌, ◌≼◌, lit, zero_f, neg, abs}

-- `ControlPose2D_t`
pub record Pose (F : Type 0) : Type 0 where
  pub x : F
  pub y : F
  pub theta : F

-- `ControlChassisConfig_t`
pub record ChassisConfig (F : Type 0) : Type 0 where
  pub left_pulses_per_cm : F
  pub right_pulses_per_cm : F
  pub wheel_base_cm : F
  pub open_loop_cm_per_pwm_ms : F
  pub speed_out_limit : F
  pub speed_correction_limit : F
  pub forward_min_pulse : F
  pub feedforward_left_slope : F
  pub feedforward_left_offset : F
  pub feedforward_right_slope : F
  pub feedforward_right_offset : F
  pub integral_delay_ms : ℕ

-- `ControlChassis_t`
pub record Chassis (F : Type 0) : Type 0 where
  pub config : ChassisConfig F
  pub pid_left : Pid F
  pub pid_right : Pid F
  pub pose : Pose F
  pub target_speed_left : F
  pub target_speed_right : F
  pub measured_speed_left : F
  pub measured_speed_right : F
  pub segment_dist_cm : F
  pub dead_zone_left : F
  pub dead_zone_right : F
  pub speed_control_active : Bool
  pub speed_control_started_ms : ℕ
  pub debug_pwm_active : Bool
  pub debug_pwm_left : ℤ
  pub debug_pwm_right : ℤ
  pub debug_pwm_deadline_ms : ℕ

module _ {F : Type 0} ⦃f : Float F⦄ where
  -- (float)M_PI
  abbrev pub pi : F
  pi = lit 314159265358979323846 20

  -- while (x > pi) x -= 2 * pi;
  unfoldable pub wrap_down : ℕ → F → Option F
  wrap_down zero x = if pi ≺ x then none else some x
  wrap_down (suc fuel) x =
      let rest = wrap_down fuel (x ⊖ lit 2 0 ⊗ pi) in if pi ≺ x then rest else some x

  -- while (x < -pi) x += 2 * pi;
  unfoldable pub wrap_up : ℕ → F → Option F
  wrap_up zero x = if x ≺ neg pi then none else some x
  wrap_up (suc fuel) x =
      let rest = wrap_up fuel (x ⊕ lit 2 0 ⊗ pi) in if x ≺ neg pi then rest else some x

  unfoldable pub wrap_pi : ℕ → F → Option F
  wrap_pi fuel x = and_then (wrap_down fuel x) (λ y. wrap_up fuel y)

  unfoldable pub clampf : F → F → F → F
  clampf x lo hi = if x ≺ lo then lo else if hi ≺ x then hi else x

  unfoldable pub feedforward_pwm : F → F → F → F → F
  feedforward_pwm target slope offset minimum_target =
      if target ≼ minimum_target || slope ≼ zero_f then zero_f else (target ⊕ offset) ⊘ slope

  -- The result is the controller and its output.
  unfoldable pub update_speed_pid : Pid F → F → F → Bool → Pid F × F
  update_speed_pid pid target measured allow_integral =
      let free = Pid.update pid target measured in
      let held = Pid.update (record pid { ki = zero_f }) target measured in
      if allow_integral
      then (free, free.last_output)
      else (record held { ki = pid.ki; integral = zero_f; last_i = zero_f }, held.last_output)

  -- `if (x <= 0.0f) x = y;`
  abbrev pub positive_or : F → F → F
  positive_or y x = if x ≼ zero_f then y else x

  unfoldable pub normalize_config : ChassisConfig F → ChassisConfig F
  normalize_config c = record {
    left_pulses_per_cm = positive_or (lit 7344 2) c.left_pulses_per_cm;
    right_pulses_per_cm = positive_or (lit 7314 2) c.right_pulses_per_cm;
    wheel_base_cm = positive_or (lit 135 1) c.wheel_base_cm;
    open_loop_cm_per_pwm_ms = positive_or (lit 22 5) c.open_loop_cm_per_pwm_ms;
    speed_out_limit = positive_or (lit 500 0) c.speed_out_limit;
    speed_correction_limit = positive_or (lit 120 0) c.speed_correction_limit;
    forward_min_pulse = if c.forward_min_pulse ≺ zero_f then lit 3 2 else c.forward_min_pulse;
    feedforward_left_slope = positive_or (lit 69114 6) c.feedforward_left_slope;
    feedforward_left_offset = positive_or (lit 5751407 6) c.feedforward_left_offset;
    feedforward_right_slope = positive_or (lit 68201 6) c.feedforward_right_slope;
    feedforward_right_offset = positive_or (lit 5486958 6) c.feedforward_right_offset;
    integral_delay_ms = if c.integral_delay_ms == 0 then 200 else c.integral_delay_ms;
  }

  unfoldable pub integrate_odometry : ℕ → Chassis F → F → F → Option (Chassis F)
  integrate_odometry fuel c ds_left_cm ds_right_cm =
      let ds = lit 5 1 ⊗ (ds_left_cm ⊕ ds_right_cm) in
      let dtheta = (ds_right_cm ⊖ ds_left_cm) ⊘ c.config.wheel_base_cm in
      let mid = c.pose.theta ⊕ lit 5 1 ⊗ dtheta in
      and_then (wrap_pi fuel (c.pose.theta ⊕ dtheta)) (λ theta. some (record c {
        pose = record {
          x = c.pose.x ⊕ ds ⊗ f.cos mid;
          y = c.pose.y ⊕ ds ⊗ f.sin mid;
          theta = theta;
        };
        segment_dist_cm = c.segment_dist_cm ⊕ abs ds;
      }))
