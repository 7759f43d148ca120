-- ===== src/Imu/State.antt =====
-- modules/imu/device/dev_icm45688.h: the handle of the device, `icm45688_mspm0_t`, and the functions
-- of dev_icm45688.c that set parts of it to fixed values. Three fields that differ by the axis alone
-- are one `Axes`. The bus is told apart by its instance being null; the handle of the vendor's driver
-- is a parameter of the functions that call it.
use nuedc_control_car_freert.Prelude.{ℕ, Bool, false}
use nuedc_control_car_freert.Float.{Float, ◌⊘◌, lit, zero_f}

pub record Axes (F : Type 0) : Type 0 where
  pub x : F
  pub y : F
  pub z : F

-- quat_w, quat_x, quat_y and quat_z
pub record Quat (F : Type 0) : Type 0 where
  pub w : F
  pub x : F
  pub y : F
  pub z : F

-- `icm45688_mspm0_attitude_mode_t`
pub data AttitudeMode : Type 0 where
  complementary : AttitudeMode
  mahony : AttitudeMode

-- what `ICM45688_MSPM0_ResetAttitude` resets
pub record Attitude (F : Type 0) : Type 0 where
  pub pitch_deg : F
  pub roll_deg : F
  pub yaw_deg : F
  pub integral : Axes F
  pub quat : Quat F

-- what is set from outside: the detection of rest, the filters and the gains
pub record Settings (F : Type 0) : Type 0 where
  pub stationary_gyro_threshold_dps : F
  pub stationary_accel_threshold_g : F
  pub stationary_hold_samples : ℕ
  pub gyro_bias_auto_update : Bool
  pub gyro_bias_learning_rate : F
  pub accel_lpf_cutoff_hz : F
  pub gyro_lpf_cutoff_hz : F
  pub filter_dt_s : F
  pub filter_alpha : F
  pub attitude_mode : AttitudeMode
  pub accel_trust_window_g : F
  pub accel_rejection_threshold_sq : F
  pub mahony_kp : F
  pub mahony_ki : F

pub record Device (F : Type 0) : Type 0 where
  pub bus_set : Bool
  pub ready : Bool
  pub last_who_am_i : ℕ
  pub stationary : Bool
  pub stationary_sample_count : ℕ
  pub gyro_bias_stationary_samples : ℕ
  pub sample_lpf_initialized : Bool
  pub accel_fsr_g : F
  pub gyro_fsr_dps : F
  pub gyro_bias : Axes F
  pub gyro_scale : Axes F
  pub accel_g : Axes F
  pub gyro_dps : Axes F
  pub temp_c : F
  pub settings : Settings F
  pub attitude : Attitude F

module _ {F : Type 0} ⦃f : Float F⦄ where
  -- 1.0f
  abbrev pub one : F
  one = lit 1 0

  abbrev pub zero_axes : Axes F
  zero_axes = record { x = zero_f; y = zero_f; z = zero_f }

  -- the state of `ICM45688_MSPM0_ResetAttitude`
  abbrev pub level : Attitude F
  level = record {
    pitch_deg = zero_f;
    roll_deg = zero_f;
    yaw_deg = zero_f;
    integral = zero_axes;
    quat = record { w = one; x = zero_f; y = zero_f; z = zero_f };
  }

  unfoldable pub reset_attitude : Device F → Device F
  reset_attitude d = record d { attitude = level }

  unfoldable pub clear_measurements : Device F → Device F
  clear_measurements d = record d {
    accel_g = zero_axes;
    gyro_dps = zero_axes;
    temp_c = zero_f;
    stationary = false;
    stationary_sample_count = 0;
    gyro_bias_stationary_samples = 0;
    sample_lpf_initialized = false;
    attitude = level;
  }

  -- init_attitude_defaults
  abbrev pub default_settings : Settings F
  default_settings = record {
    stationary_gyro_threshold_dps = lit 15 1;
    stationary_accel_threshold_g = lit 8 2;
    stationary_hold_samples = 5;
    gyro_bias_auto_update = false;
    gyro_bias_learning_rate = lit 1 3;
    accel_lpf_cutoff_hz = zero_f;
    gyro_lpf_cutoff_hz = zero_f;
    filter_dt_s = one ⊘ lit 200 0;
    filter_alpha = lit 98 2;
    attitude_mode = complementary;
    accel_trust_window_g = zero_f;
    accel_rejection_threshold_sq = zero_f;
    mahony_kp = lit 2 0;
    mahony_ki = zero_f;
  }

  -- ICM45688_MSPM0_InitHandleSPI, by whether the bus that it is given is a bus
  unfoldable pub init_handle : Bool → Device F
  init_handle bus = record {
    bus_set = bus;
    ready = false;
    last_who_am_i = 0;
    stationary = false;
    stationary_sample_count = 0;
    gyro_bias_stationary_samples = 0;
    sample_lpf_initialized = false;
    accel_fsr_g = lit 16 0;
    gyro_fsr_dps = lit 1000 0;
    gyro_bias = zero_axes;
    gyro_scale = record { x = one; y = one; z = one };
    accel_g = zero_axes;
    gyro_dps = zero_axes;
    temp_c = zero_f;
    settings = default_settings;
    attitude = level;
  }
