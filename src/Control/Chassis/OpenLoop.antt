-- ===== src/Control/Chassis/OpenLoop.antt =====
-- The tick of control/chassis.c in the build with NUEDC_NO_ENCODER, which counts what it commands as the
-- way that the car goes. The initialisation and the reset of the odometry are as in the other build
-- without their calls of the encoders.
use nuedc_control_car_freert.Prelude.{
  ℕ, ◌≡◌, refl, Bool, List, Option, some, and_then, if◌then◌else◌,
}
use nuedc_control_car_freert.Prelude.Int.{ℤ, pos}
use nuedc_control_car_freert.Platform.{Call}
use nuedc_control_car_freert.Motor.Board.{MotorBoard}
use nuedc_control_car_freert.Motor.Board.Bounds.{IsSafe}
use nuedc_control_car_freert.Control.Chassis.{Chassis, clampf, integrate_odometry}
use nuedc_control_car_freert.Control.Chassis.Drive.{set_duties}
use nuedc_control_car_freert.Control.Chassis.Stop.{cut_duty, set_duties_lem}
use nuedc_control_car_freert.Float.{Float, ◌⊗◌, neg}

module _ {F : Type 0} ⦃f : Float F⦄ where
  unfoldable pub open_loop_pwm : Chassis F → Bool → F → ℤ
  open_loop_pwm c run target =
      let limit = c.config.speed_out_limit in
      if run then f.to_i16 (clampf target (neg limit) limit) else pos 0

  -- `none` when the angle is not wrapped within the fuel
  unfoldable pub tick_open_loop :
      ℕ → Chassis F → MotorBoard → Bool → ℕ → Option (Chassis F × MotorBoard × List Call)
  tick_open_loop fuel c b run now =
      let left = open_loop_pwm c run c.target_speed_left in
      let right = open_loop_pwm c run c.target_speed_right in
      let scale = c.config.open_loop_cm_per_pwm_ms in
      let (board, calls) = set_duties now b left right in
      and_then (integrate_odometry fuel c (f.of_int left ⊗ scale) (f.of_int right ⊗ scale)) (λ m.
        some (
          record m { measured_speed_left = f.of_int left; measured_speed_right = f.of_int right },
          board,
          calls,
        ))

  -- With motors within their limits and an angle that is wrapped, the tick gives each motor the duty
  -- that it counts as its speed, cut to the range from 0 to 1000, so 0 without the run flag, whatever
  -- debug duty is held; the command timeout starts anew.
  pub tick_open_loop_lem :
      (fuel : ℕ) (c m : Chassis F) (b : MotorBoard) (run : Bool) (now : ℕ)
      → IsSafe b
      → let left = open_loop_pwm c run c.target_speed_left in
        let right = open_loop_pwm c run c.target_speed_right in
        let scale = c.config.open_loop_cm_per_pwm_ms in
        integrate_odometry fuel c (f.of_int left ⊗ scale) (f.of_int right ⊗ scale) ≡ some m
        → let (after, calls) = set_duties now b left right in
          (tick_open_loop fuel c b run now
            ≡ some (
              record m {
                measured_speed_left = f.of_int left;
                measured_speed_right = f.of_int right;
              },
              after,
              calls,
            ))
          × (after.left.duty ≡ cut_duty left)
          × (after.right.duty ≡ cut_duty right)
          × (after.last_command_ms ≡ now)
  unfolding tick_open_loop
  tick_open_loop_lem fuel c m b run now safe moved =
      let left = open_loop_pwm c run c.target_speed_left in
      let right = open_loop_pwm c run c.target_speed_right in
      let (set_l, set_r, time) = set_duties_lem now b left right safe in
      (rw moved refl, set_l, set_r, time)
