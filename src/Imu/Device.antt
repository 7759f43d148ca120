-- ===== src/Imu/Device.antt =====
-- modules/imu/device/dev_icm45688.c: what a sample does to the handle: its filters, the detection of
-- rest, the learning of the bias and the attitude.
use nuedc_control_car_freert.Prelude.{
  ℕ, ◌+◌, Bool, true, ◌&&◌, ◌||◌, not, Option, some, and_then, ltb, leb, if◌then◌else◌,
}
use nuedc_control_car_freert.Prelude.Int.{ℤ}
use nuedc_control_car_freert.Float.{Float, ◌⊕◌, ◌⊖◌, ◌⊗◌, ◌⊘◌, ◌≺◌, ◌≼◌, lit, zero_f, abs}
use nuedc_control_car_freert.Imu.State.{
  Axes, Attitude, AttitudeMode, complementary, mahony, Device, one,
}
use nuedc_control_car_freert.Imu.Setters.{clampf_local, at_least_one}
use nuedc_control_car_freert.Imu.Attitude.{norm_sq, min_norm_sq, update_complementary_attitude}
use nuedc_control_car_freert.Imu.Mahony.{update_mahony_attitude}

-- the count of samples at rest after one more
abbrev pub count_still : Bool → ℕ → ℕ → ℕ
count_still still hold count = if still then (if ltb count hold then count + 1 else count) else 0

-- ICM45688_BIAS_LEARN_STATIONARY_SAMPLES
abbrev pub bias_learn_samples : ℕ
bias_learn_samples = 600

-- inv_imu_sensor_data_t: accel_data, gyro_data and temp_data
pub record Sample : Type 0 where
  pub accel : Axes ℤ
  pub gyro : Axes ℤ
  pub temp : ℤ

module _ {F : Type 0} ⦃f : Float F⦄ where
  unfoldable pub lpf_alpha : F → F → F
  lpf_alpha cutoff_hz dt_s =
      let x = lit 6283185307 9 ⊗ cutoff_hz ⊗ dt_s in
      if cutoff_hz ≼ zero_f || dt_s ≼ zero_f then one else clampf_local (x ⊘ (one ⊕ x)) zero_f one

  unfoldable pub lpf_step : F → F → F → F → F
  lpf_step prev input cutoff_hz dt_s = prev ⊕ lpf_alpha cutoff_hz dt_s ⊗ (input ⊖ prev)

  abbrev pub lpf_axes : Axes F → Axes F → F → F → Axes F
  lpf_axes prev input cutoff_hz dt_s = record {
    x = lpf_step prev.x input.x cutoff_hz dt_s;
    y = lpf_step prev.y input.y cutoff_hz dt_s;
    z = lpf_step prev.z input.z cutoff_hz dt_s;
  }

  -- apply_sample_lowpass, on the raw acceleration and the corrected rate
  unfoldable pub apply_sample_lowpass : Device F → Axes F → Axes F → Device F
  apply_sample_lowpass d raw_g corrected_dps =
      let s = d.settings in
      record d {
        accel_g =
            if d.sample_lpf_initialized
            then lpf_axes d.accel_g raw_g s.accel_lpf_cutoff_hz s.filter_dt_s
            else raw_g;
        gyro_dps =
            if d.sample_lpf_initialized
            then lpf_axes d.gyro_dps corrected_dps s.gyro_lpf_cutoff_hz s.filter_dt_s
            else corrected_dps;
        sample_lpf_initialized = true;
      }

  -- instant_stationary
  unfoldable pub instant_stationary : Device F → Bool
  instant_stationary d =
      let s = d.settings in
      min_norm_sq ≺ norm_sq d.accel_g
      && zero_f ≺ s.stationary_gyro_threshold_dps
      && zero_f ≼ s.stationary_accel_threshold_g
      && (f.sqrt (norm_sq d.gyro_dps) ≼ s.stationary_gyro_threshold_dps)
      && (abs (f.sqrt (norm_sq d.accel_g) ⊖ one) ≼ s.stationary_accel_threshold_g)

  -- hold_samples
  abbrev pub hold_samples : Device F → ℕ
  hold_samples d = at_least_one d.settings.stationary_hold_samples

  unfoldable pub update_stationary_state : Device F → Device F
  update_stationary_state d =
      let count = count_still (instant_stationary d) (hold_samples d) d.stationary_sample_count in
      record d { stationary_sample_count = count; stationary = leb (hold_samples d) count }

  -- ICM45688_BIAS_LEARN_GYRO_DPS is 0.35
  abbrev pub moves : Device F → Bool
  moves d =
      not d.stationary
      || lit 35 2 ≺ abs d.gyro_dps.x
      || lit 35 2 ≺ abs d.gyro_dps.y
      || lit 35 2 ≺ abs d.gyro_dps.z

  abbrev pub learn_axes : F → Axes F → Axes F → Axes F
  learn_axes learn bias raw = record {
    x = bias.x ⊕ (raw.x ⊖ bias.x) ⊗ learn;
    y = bias.y ⊕ (raw.y ⊖ bias.y) ⊗ learn;
    z = bias.z ⊕ (raw.z ⊖ bias.z) ⊗ learn;
  }

  unfoldable pub update_auto_gyro_bias : Device F → Axes F → Device F
  update_auto_gyro_bias d raw_dps =
      let learn = clampf_local d.settings.gyro_bias_learning_rate zero_f one in
      if not d.settings.gyro_bias_auto_update
      then d
      else if moves d
      then record d { gyro_bias_stationary_samples = 0 }
      else if ltb d.gyro_bias_stationary_samples bias_learn_samples
      then record d { gyro_bias_stationary_samples = d.gyro_bias_stationary_samples + 1 }
      else if learn ≼ zero_f
      then d
      else record d { gyro_bias = learn_axes learn d.gyro_bias raw_dps }

  -- ((float)raw * fsr) / ICM45688_RAW_MAX
  abbrev pub full_scale : Axes ℤ → F → Axes F
  full_scale raw fsr = record {
    x = (f.of_int raw.x ⊗ fsr) ⊘ lit 32768 0;
    y = (f.of_int raw.y ⊗ fsr) ⊘ lit 32768 0;
    z = (f.of_int raw.z ⊗ fsr) ⊘ lit 32768 0;
  }

  abbrev pub unbiased : Device F → Axes F → Axes F
  unbiased d raw = record {
    x = (raw.x ⊖ d.gyro_bias.x) ⊗ d.gyro_scale.x;
    y = (raw.y ⊖ d.gyro_bias.y) ⊗ d.gyro_scale.y;
    z = (raw.z ⊖ d.gyro_bias.z) ⊗ d.gyro_scale.z;
  }

  -- gx_dps, gy_dps and gz_dps less what the bias has changed by
  abbrev pub follow_bias : Device F → Axes F → Device F
  follow_bias d old = record d {
    gyro_dps = record {
      x = d.gyro_dps.x ⊖ (d.gyro_bias.x ⊖ old.x) ⊗ d.gyro_scale.x;
      y = d.gyro_dps.y ⊖ (d.gyro_bias.y ⊖ old.y) ⊗ d.gyro_scale.y;
      z = d.gyro_dps.z ⊖ (d.gyro_bias.z ⊖ old.z) ⊗ d.gyro_scale.z;
    };
  }

  -- up to the detection of rest
  unfoldable pub measured : Device F → Sample → Device F
  measured d raw =
      let filtered =
        apply_sample_lowpass d (full_scale raw.accel d.accel_fsr_g)
          (unbiased d (full_scale raw.gyro d.gyro_fsr_dps)) in
      update_stationary_state
        (record filtered { temp_c = lit 25 0 ⊕ f.of_int raw.temp ⊘ lit 128 0 })

  -- ICM45688_MSPM0_Update before the attitude
  unfoldable pub take_sample : Device F → Sample → Device F
  take_sample d raw =
      let seen = measured d raw in
      follow_bias (update_auto_gyro_bias seen (full_scale raw.gyro d.gyro_fsr_dps)) seen.gyro_bias

  unfoldable pub update_attitude : ℕ → Device F → AttitudeMode → Option (Attitude F)
  update_attitude fuel d mahony = update_mahony_attitude fuel d
  update_attitude fuel d complementary = some (update_complementary_attitude d)

  -- ICM45688_MSPM0_Update with a sample
  unfoldable pub update_with : ℕ → Device F → Sample → Option (Device F)
  update_with fuel d raw =
      let sampled = take_sample d raw in
      and_then (update_attitude fuel sampled sampled.settings.attitude_mode)
        (λ a. some (record sampled { attitude = a }))
