-- ===== src/Imu/Mahony.antt =====
-- modules/imu/device/dev_icm45688.c: `update_mahony_attitude`.
use nuedc_control_car_freert.Prelude.{ℕ, Bool, Option, some, and_then, if◌then◌else◌}
use nuedc_control_car_freert.Float.{Float, ◌⊕◌, ◌⊖◌, ◌⊗◌, ◌⊘◌, ◌≺◌, lit, zero_f}
use nuedc_control_car_freert.Imu.State.{Axes, Quat, Attitude, Device, one, level}
use nuedc_control_car_freert.Imu.Setters.{quat_from_euler}
use nuedc_control_car_freert.Imu.Attitude.{
  min_norm_sq, norm_sq, yaw_should_lock, accel_is_trusted, euler_from_quat, turn_rate,
  feedback_error, apply_feedback,
}

module _ {F : Type 0} ⦃f : Float F⦄ where
  -- the integral and the rate before a locked yaw is taken into account
  unfoldable pub corrected_rate : Device F → Axes F × Axes F
  corrected_rate d =
      if accel_is_trusted d
      then apply_feedback d (feedback_error d)
      else (d.attitude.integral, turn_rate d)

  -- delta_w, delta_x, delta_y and delta_z
  unfoldable pub delta_quat : F → Axes F → Quat F
  delta_quat dt g =
      let half_dt = lit 5 1 ⊗ dt in
      let half_angle_sq = norm_sq g ⊗ half_dt ⊗ half_dt in
      let half_angle_pow4 = half_angle_sq ⊗ half_angle_sq in
      let vector_scale =
        half_dt ⊗ (one ⊖ half_angle_sq ⊗ (one ⊘ lit 6 0) ⊕ half_angle_pow4 ⊗ (one ⊘ lit 120 0)) in
      record {
        w = one ⊖ lit 5 1 ⊗ half_angle_sq ⊕ half_angle_pow4 ⊗ (one ⊘ lit 24 0);
        x = g.x ⊗ vector_scale;
        y = g.y ⊗ vector_scale;
        z = g.z ⊗ vector_scale;
      }

  -- the product of the two rotations
  unfoldable pub rotate : Quat F → Quat F → Quat F
  rotate q d = record {
    w = q.w ⊗ d.w ⊖ q.x ⊗ d.x ⊖ q.y ⊗ d.y ⊖ q.z ⊗ d.z;
    x = q.w ⊗ d.x ⊕ q.x ⊗ d.w ⊕ q.y ⊗ d.z ⊖ q.z ⊗ d.y;
    y = q.w ⊗ d.y ⊖ q.x ⊗ d.z ⊕ q.y ⊗ d.w ⊕ q.z ⊗ d.x;
    z = q.w ⊗ d.z ⊕ q.x ⊗ d.y ⊖ q.y ⊗ d.x ⊕ q.z ⊗ d.w;
  }

  abbrev pub quat_norm_sq : Quat F → F
  quat_norm_sq q = q.w ⊗ q.w ⊕ q.x ⊗ q.x ⊕ q.y ⊗ q.y ⊕ q.z ⊗ q.z

  -- the attitude with a rotated quaternion, made of unit length or reset
  unfoldable pub normalized : Attitude F → Quat F → Attitude F
  normalized a q =
      let inv_norm = one ⊘ f.sqrt (quat_norm_sq q) in
      if min_norm_sq ≺ quat_norm_sq q
      then record a {
        quat = record {
          w = q.w ⊗ inv_norm;
          x = q.x ⊗ inv_norm;
          y = q.y ⊗ inv_norm;
          z = q.z ⊗ inv_norm;
        };
      }
      else level

  -- gz and the integral of its axis are set to 0
  abbrev pub still_z : Bool → Axes F → Axes F
  still_z locked v = if locked then record v { z = zero_f } else v

  -- up to the call of euler_from_quat
  unfoldable pub rotated_attitude : Device F → Attitude F
  rotated_attitude d =
      let (integral, rate) = corrected_rate d in
      let locked = yaw_should_lock d in
      normalized (record d.attitude { integral = still_z locked integral })
        (rotate d.attitude.quat (delta_quat d.settings.filter_dt_s (still_z locked rate)))

  abbrev pub hold_yaw : F → Attitude F → Attitude F
  hold_yaw held_yaw_deg a =
      let held = record a { yaw_deg = held_yaw_deg } in record held { quat = quat_from_euler held }

  unfoldable pub update_mahony_attitude : ℕ → Device F → Option (Attitude F)
  update_mahony_attitude fuel d =
      and_then (euler_from_quat fuel (rotated_attitude d))
        (λ a. some (if yaw_should_lock d then hold_yaw d.attitude.yaw_deg a else a))
