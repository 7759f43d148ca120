-- ===== src/Imu/Setters.antt =====
-- modules/imu/device/dev_icm45688.c: the functions that change the handle from outside, with the
-- values that they refuse.
use nuedc_control_car_freert.Prelude.{ℕ, Bool, false, ◌&&◌, if◌then◌else◌, ◌==◌}
use nuedc_control_car_freert.Float.{Float, ◌⊕◌, ◌⊖◌, ◌⊗◌, ◌≺◌, ◌≼◌, lit, zero_f}
use nuedc_control_car_freert.Imu.State.{
  Quat, AttitudeMode, complementary, mahony, Attitude, Device, one,
}

-- a number of samples of uint16_t, at least one
abbrev pub at_least_one : ℕ → ℕ
at_least_one n = if n == 0 then 1 else n

module _ {F : Type 0} ⦃f : Float F⦄ where
  -- a new value, if the guard holds, or the old one
  abbrev pub accept : Bool → F → F → F
  accept guard new old = if guard then new else old

  unfoldable pub clampf_local : F → F → F → F
  clampf_local value lo hi = if value ≺ lo then lo else if hi ≺ value then hi else value

  -- ICM45688_DEG_TO_RAD and ICM45688_RAD_TO_DEG
  abbrev pub deg_to_rad : F
  deg_to_rad = lit 174532925 10

  abbrev pub rad_to_deg : F
  rad_to_deg = lit 572957795 7

  unfoldable pub quat_from_euler : Attitude F → Quat F
  quat_from_euler a =
      let half_roll = a.pitch_deg ⊗ deg_to_rad ⊗ lit 5 1 in
      let half_pitch = a.roll_deg ⊗ deg_to_rad ⊗ lit 5 1 in
      let half_yaw = a.yaw_deg ⊗ deg_to_rad ⊗ lit 5 1 in
      let cr = f.cos half_roll in
      let sr = f.sin half_roll in
      let cp = f.cos half_pitch in
      let sp = f.sin half_pitch in
      let cy = f.cos half_yaw in
      let sy = f.sin half_yaw in
      record {
        w = cr ⊗ cp ⊗ cy ⊕ sr ⊗ sp ⊗ sy;
        x = sr ⊗ cp ⊗ cy ⊖ cr ⊗ sp ⊗ sy;
        y = cr ⊗ sp ⊗ cy ⊕ sr ⊗ cp ⊗ sy;
        z = cr ⊗ cp ⊗ sy ⊖ sr ⊗ sp ⊗ cy;
      }

  unfoldable pub set_filter : Device F → F → F → Device F
  set_filter d dt_s alpha = record d {
    settings = record d.settings {
      filter_dt_s = accept (zero_f ≺ dt_s) dt_s d.settings.filter_dt_s;
      filter_alpha = accept (zero_f ≼ alpha && alpha ≼ one) alpha d.settings.filter_alpha;
    };
  }

  unfoldable pub set_sample_low_pass : Device F → F → F → Device F
  set_sample_low_pass d accel_cutoff_hz gyro_cutoff_hz = record d {
    settings = record d.settings {
      accel_lpf_cutoff_hz = accept (zero_f ≺ accel_cutoff_hz) accel_cutoff_hz zero_f;
      gyro_lpf_cutoff_hz = accept (zero_f ≺ gyro_cutoff_hz) gyro_cutoff_hz zero_f;
    };
  }

  unfoldable pub reset_sample_low_pass : Device F → Device F
  reset_sample_low_pass d = record d { sample_lpf_initialized = false }

  -- A change to Mahony's filter takes over the angles.
  abbrev pub entered : Device F → AttitudeMode → AttitudeMode → Quat F
  entered d complementary mahony = quat_from_euler d.attitude
  entered d complementary complementary = d.attitude.quat
  entered d mahony new = d.attitude.quat

  unfoldable pub set_attitude_mode : Device F → AttitudeMode → Device F
  set_attitude_mode d mode = record d {
    settings = record d.settings { attitude_mode = mode };
    attitude = record d.attitude { quat = entered d d.settings.attitude_mode mode };
  }

  unfoldable pub set_accel_trust_window : Device F → F → Device F
  set_accel_trust_window d max_accel_error_g = record d {
    settings = record d.settings {
      accel_trust_window_g = accept (zero_f ≺ max_accel_error_g) max_accel_error_g zero_f;
    };
  }

  -- the square of half the sine of an angle from 0 to 90 degrees
  unfoldable pub rejection_threshold_sq : F → F
  rejection_threshold_sq angle_deg =
      let clamped = clampf_local angle_deg zero_f (lit 90 0) in
      let half_sine = lit 5 1 ⊗ f.sin (clamped ⊗ deg_to_rad) in
      if angle_deg ≼ zero_f then zero_f else half_sine ⊗ half_sine

  unfoldable pub set_accel_rejection : Device F → F → Device F
  set_accel_rejection d rejection_angle_deg = record d {
    settings = record d.settings {
      accel_rejection_threshold_sq = rejection_threshold_sq rejection_angle_deg;
    };
  }

  unfoldable pub set_mahony_gains : Device F → F → F → Device F
  set_mahony_gains d kp ki = record d {
    settings = record d.settings {
      mahony_kp = accept (zero_f ≼ kp) kp d.settings.mahony_kp;
      mahony_ki = accept (zero_f ≼ ki) ki d.settings.mahony_ki;
    };
  }

  unfoldable pub get_quaternion : Device F → Quat F
  get_quaternion d = d.attitude.quat

  unfoldable pub set_gyro_bias : Device F → F → F → F → Device F
  set_gyro_bias d gx_bias_dps gy_bias_dps gz_bias_dps = record d {
    gyro_bias = record { x = gx_bias_dps; y = gy_bias_dps; z = gz_bias_dps };
    gyro_bias_stationary_samples = 0;
  }

  unfoldable pub set_gyro_scale : Device F → F → F → F → Device F
  set_gyro_scale d gx_scale gy_scale gz_scale = record d {
    gyro_scale = record {
      x = accept (zero_f ≺ gx_scale) gx_scale d.gyro_scale.x;
      y = accept (zero_f ≺ gy_scale) gy_scale d.gyro_scale.y;
      z = accept (zero_f ≺ gz_scale) gz_scale d.gyro_scale.z;
    };
  }

  unfoldable pub set_stationary_detection : Device F → F → F → ℕ → Device F
  set_stationary_detection d gyro_threshold_dps accel_threshold_g hold_samples = record d {
    settings = record d.settings {
      stationary_gyro_threshold_dps =
          accept (zero_f ≺ gyro_threshold_dps) gyro_threshold_dps
            d.settings.stationary_gyro_threshold_dps;
      stationary_accel_threshold_g =
          accept (zero_f ≼ accel_threshold_g) accel_threshold_g
            d.settings.stationary_accel_threshold_g;
      stationary_hold_samples = at_least_one hold_samples;
    };
    stationary = false;
    stationary_sample_count = 0;
    gyro_bias_stationary_samples = 0;
  }

  unfoldable pub set_gyro_bias_auto_update : Device F → Bool → F → Device F
  set_gyro_bias_auto_update d enable learning_rate = record d {
    settings = record d.settings {
      gyro_bias_auto_update = enable;
      gyro_bias_learning_rate =
          accept (zero_f ≼ learning_rate && learning_rate ≼ one) learning_rate
            d.settings.gyro_bias_learning_rate;
    };
    gyro_bias_stationary_samples = 0;
  }

  unfoldable pub is_ready : Device F → Bool
  is_ready d = d.ready

  unfoldable pub is_stationary : Device F → Bool
  is_stationary d = d.stationary
