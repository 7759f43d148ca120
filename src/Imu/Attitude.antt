-- ===== src/Imu/Attitude.antt =====
-- modules/imu/device/dev_icm45688.c: the attitude from one sample, by a complementary filter or by
-- Mahony's. The loops of `wrap_degrees_180` run on fuel, and `none` is a loop that has not ended.
use nuedc_control_car_freert.Prelude.{
  ℕ, Bool, true, false, ◌&&◌, ◌||◌, Option, some, and_then, if◌then◌else◌,
}
use nuedc_control_car_freert.Float.{Float, ◌⊕◌, ◌⊖◌, ◌⊗◌, ◌⊘◌, ◌≺◌, ◌≼◌, lit, zero_f, neg, abs}
use nuedc_control_car_freert.Imu.Loops.{while_loop}
use nuedc_control_car_freert.Imu.State.{Axes, Quat, Attitude, Device, one}
use nuedc_control_car_freert.Imu.Setters.{clampf_local, deg_to_rad, rad_to_deg}

module _ {F : Type 0} ⦃f : Float F⦄ where
  -- ICM45688_MIN_NORM_SQ
  abbrev pub min_norm_sq : F
  min_norm_sq = lit 1 6

  abbrev pub norm_sq : Axes F → F
  norm_sq v = v.x ⊗ v.x ⊕ v.y ⊗ v.y ⊕ v.z ⊗ v.z

  -- ICM45688_YAW_LOCK_GYRO_DPS is 0.25
  unfoldable pub yaw_should_lock : Device F → Bool
  yaw_should_lock d = d.stationary && abs d.gyro_dps.z ≼ lit 25 2

  unfoldable pub accel_is_trusted : Device F → Bool
  accel_is_trusted d =
      let window = d.settings.accel_trust_window_g in
      if norm_sq d.accel_g ≼ min_norm_sq
      then false
      else if window ≼ zero_f
      then true
      else abs (f.sqrt (norm_sq d.accel_g) ⊖ one) ≼ window

  abbrev pub turn_back : F → F
  turn_back angle_deg = angle_deg ⊖ lit 360 0

  abbrev pub turn_on : F → F
  turn_on angle_deg = angle_deg ⊕ lit 360 0

  abbrev pub too_high : F → Bool
  too_high angle_deg = lit 180 0 ≺ angle_deg

  abbrev pub too_low : F → Bool
  too_low angle_deg = angle_deg ≼ neg (lit 180 0)

  unfoldable pub wrap_degrees_180 : ℕ → F → Option F
  wrap_degrees_180 fuel angle_deg =
      and_then (while_loop too_high turn_back fuel angle_deg)
        (λ lowered. while_loop too_low turn_on fuel lowered)

  unfoldable pub quat_pitch : Quat F → F
  quat_pitch q =
      f.atan2 (lit 2 0 ⊗ (q.w ⊗ q.x ⊕ q.y ⊗ q.z)) (one ⊖ lit 2 0 ⊗ (q.x ⊗ q.x ⊕ q.y ⊗ q.y))
      ⊗ rad_to_deg

  unfoldable pub quat_roll : Quat F → F
  quat_roll q = f.asin (clampf_local (lit 2 0 ⊗ (q.w ⊗ q.y ⊖ q.z ⊗ q.x)) (neg one) one) ⊗ rad_to_deg

  -- yaw_wrapped_deg
  unfoldable pub quat_yaw : Quat F → F
  quat_yaw q =
      f.atan2 (lit 2 0 ⊗ (q.w ⊗ q.z ⊕ q.x ⊗ q.y)) (one ⊖ lit 2 0 ⊗ (q.y ⊗ q.y ⊕ q.z ⊗ q.z))
      ⊗ rad_to_deg

  -- yaw_delta_deg
  unfoldable pub yaw_delta : ℕ → F → F → Option F
  yaw_delta fuel wrapped previous =
      and_then (wrap_degrees_180 fuel previous) (λ before. wrap_degrees_180 fuel (wrapped ⊖ before))

  unfoldable pub euler_from_quat : ℕ → Attitude F → Option (Attitude F)
  euler_from_quat fuel a = and_then (yaw_delta fuel (quat_yaw a.quat) a.yaw_deg) (λ delta.
      some (record a {
        pitch_deg = quat_pitch a.quat;
        roll_deg = quat_roll a.quat;
        yaw_deg = a.yaw_deg ⊕ delta;
      }))

  abbrev pub accel_pitch : Axes F → F
  accel_pitch a = f.atan2 a.y a.z ⊗ rad_to_deg

  abbrev pub accel_roll : Axes F → F
  accel_roll a = f.atan2 (neg a.x) (f.sqrt (a.y ⊗ a.y ⊕ a.z ⊗ a.z)) ⊗ rad_to_deg

  unfoldable pub update_complementary_attitude : Device F → Attitude F
  update_complementary_attitude d =
      let alpha = d.settings.filter_alpha in
      let gyro_pitch = d.attitude.pitch_deg ⊕ d.gyro_dps.x ⊗ d.settings.filter_dt_s in
      let gyro_roll = d.attitude.roll_deg ⊕ d.gyro_dps.y ⊗ d.settings.filter_dt_s in
      let trusted = accel_is_trusted d in
      record d.attitude {
        pitch_deg =
            if trusted
            then alpha ⊗ gyro_pitch ⊕ (one ⊖ alpha) ⊗ accel_pitch d.accel_g
            else gyro_pitch;
        roll_deg =
            if trusted then alpha ⊗ gyro_roll ⊕ (one ⊖ alpha) ⊗ accel_roll d.accel_g else gyro_roll;
        yaw_deg =
            if yaw_should_lock d
            then d.attitude.yaw_deg
            else d.attitude.yaw_deg ⊕ d.gyro_dps.z ⊗ d.settings.filter_dt_s;
      }

  -- gx, gy and gz in radians per second
  abbrev pub turn_rate : Device F → Axes F
  turn_rate d = record {
    x = d.gyro_dps.x ⊗ deg_to_rad;
    y = d.gyro_dps.y ⊗ deg_to_rad;
    z = d.gyro_dps.z ⊗ deg_to_rad;
  }

  -- halfex, halfey and halfez, by a trusted acceleration
  unfoldable pub feedback_error : Device F → Axes F
  feedback_error d =
      let accel_norm = f.sqrt (norm_sq d.accel_g) in
      let ax = d.accel_g.x ⊘ accel_norm in
      let ay = d.accel_g.y ⊘ accel_norm in
      let az = d.accel_g.z ⊘ accel_norm in
      let q = d.attitude.quat in
      let halfvx = q.x ⊗ q.z ⊖ q.w ⊗ q.y in
      let halfvy = q.w ⊗ q.x ⊕ q.y ⊗ q.z in
      let halfvz = q.w ⊗ q.w ⊖ lit 5 1 ⊕ q.z ⊗ q.z in
      record {
        x = ay ⊗ halfvz ⊖ az ⊗ halfvy;
        y = az ⊗ halfvx ⊖ ax ⊗ halfvz;
        z = ax ⊗ halfvy ⊖ ay ⊗ halfvx;
      }

  unfoldable pub feedback_trusted : Device F → Axes F → Bool
  feedback_trusted d e =
      let threshold_sq = d.settings.accel_rejection_threshold_sq in
      d.stationary || threshold_sq ≼ zero_f || norm_sq e ≼ threshold_sq

  abbrev pub plus : Axes F → Axes F → Axes F
  plus a b = record { x = a.x ⊕ b.x; y = a.y ⊕ b.y; z = a.z ⊕ b.z }

  -- k * e
  abbrev pub scaled : F → Axes F → Axes F
  scaled k e = record { x = k ⊗ e.x; y = k ⊗ e.y; z = k ⊗ e.z }

  -- the integral after a feedback error, and the rate with the feedback
  unfoldable pub apply_feedback : Device F → Axes F → Axes F × Axes F
  apply_feedback d e =
      let dt = d.settings.filter_dt_s in
      let ki = d.settings.mahony_ki in
      let trusted = feedback_trusted d e in
      let old = d.attitude.integral in
      let grown : Axes F = record {
        x = old.x ⊕ ki ⊗ e.x ⊗ dt;
        y = old.y ⊕ ki ⊗ e.y ⊗ dt;
        z = old.z ⊕ ki ⊗ e.z ⊗ dt;
      } in
      let none_left : Axes F = record { x = zero_f; y = zero_f; z = zero_f } in
      let integral =
        if trusted && zero_f ≺ ki then grown else if ki ≼ zero_f then none_left else old in
      let rate = if trusted && zero_f ≺ ki then plus (turn_rate d) grown else turn_rate d in
      (integral, if trusted then plus rate (scaled d.settings.mahony_kp e) else rate)
