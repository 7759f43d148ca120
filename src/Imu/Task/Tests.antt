-- ===== src/Imu/Task/Tests.antt =====
-- The theorems on the IMU task at a clock of one tick a sleep and chips that answer in different ways.
use nuedc_control_car_freert.Imu.Attitude.{
  accel_is_trusted, euler_from_quat, feedback_error, apply_feedback, update_complementary_attitude,
  yaw_should_lock,
}
use nuedc_control_car_freert.Imu.Setters.{reset_sample_low_pass, set_gyro_scale}
use nuedc_control_car_freert.Prelude.{
  ℕ, ◌+◌, ◌%◌, ◌^◌, ◌<◌, ◌≡◌, ◌≢◌, ◌⊎◌, refl, true, false, none, some, arith,
}
use nuedc_control_car_freert.Prelude.Int.{ℤ, pos, ◌+ℤ◌, ◌-ℤ◌}
use nuedc_control_car_freert.Prelude.Words.{u32}
use nuedc_control_car_freert.Float.{zero_f}
use nuedc_control_car_freert.Float.Micro.{micro}
use nuedc_control_car_freert.Imu.State.{Device, init_handle, zero_axes, reset_attitude}
use nuedc_control_car_freert.Imu.Device.{
  Sample, update_with, update_attitude, take_sample, update_auto_gyro_bias, measured,
  apply_sample_lowpass, update_stationary_state, instant_stationary,
}
use nuedc_control_car_freert.Imu.Driver.{Vendor, imu_ok, get_data_ready, update}
use nuedc_control_car_freert.Imu.Calibration.{
  Service, cleared, idle, service_yaw_requests, update_yaw_calibration, serve_start, serve_cancel,
  start_yaw_calibration, set_scale_z,
}
use nuedc_control_car_freert.Imu.Wait.{
  Outside, look, wait_sample, waited, next_look, IsWaitEnd, wait_ends, wait_and_update_imu,
}
use nuedc_control_car_freert.Imu.Task.{Snapshot, off, attempts, next_sample, service_round}
use nuedc_control_car_freert.Imu.Task.Started.{service_round_serves, wrong_identity}

abbrev no_motion : Sample
no_motion = record {
  accel = record { x = pos 0; y = pos 0; z = pos 2048 };
  gyro = record { x = pos 0; y = pos 0; z = pos 0 };
  temp = pos 0;
}

-- a chip with the identity 0x47 and no samples
abbrev other_chip : Vendor ℕ
other_chip = record {
  who_am_i = λ n. (n, imu_ok, 71);
  setup = λ n call. (n, imu_ok);
  int_status = λ n. (n, imu_ok, false);
  register_data = λ n. (n, imu_ok, no_motion);
}

-- the state outside is the tick count
abbrev outside : Outside ℕ
outside = record {
  vendor = other_chip;
  data_ready = λ n. (n, true);
  tick_count = λ n. (n, n % 2 ^ 32);
  heartbeat = λ n. n;
  sleep = λ n ticks. n + ticks;
}

abbrev handle : Device ℤ
handle = init_handle true

clock_runs :
    (w : ℕ)
    → waited outside 0 w handle < 50
    → waited outside 0 w handle < waited outside 0 (next_look outside w handle) handle
unfolding look get_data_ready init_handle
clock_runs w h = ground arith

wait_ends_example :
    (r : ℕ × ℕ) × (wait_sample outside 51 0 50 0 handle ≡ some r) × IsWaitEnd outside 0 50 handle r
wait_ends_example = wait_ends outside 51 0 50 0 handle clock_runs (omega arith)

wrong_identity_example :
    (w : ℕ) × (made : Device ℤ) × (attempts outside 0 5 0 handle 1 ≡ some (w, made, imu_ok))
    × (made.ready ≡ false)
wrong_identity_example = wrong_identity outside 0 4 0 handle 1 refl (omega arith)

abbrev service : Service ℤ
service = record {
  imu = handle;
  yaw_cal = cleared;
  start_requested = true;
  cancel_requested = false;
}

abbrev empty_snapshot : Snapshot ℤ
empty_snapshot = record {
  sequence = 0;
  timestamp_ms = 0;
  accel_g = zero_axes;
  gyro_dps = zero_axes;
  temperature_c = zero_f;
  pitch_deg = zero_f;
  roll_deg = zero_f;
  yaw_deg = zero_f;
  gyro_bias_z_dps = zero_f;
  gyro_scale_z = zero_f;
  status = 0;
  state = off;
  yaw_cal_state = idle;
  stationary = false;
  is_ready = false;
}

-- the same chip with a sample, and a handle that has been set up
abbrev sampling : Outside ℕ
sampling = record outside { vendor = record other_chip { int_status = λ n. (n, imu_ok, true) } }

abbrev asked : Service ℤ
asked = record service { imu = record handle { ready = true }; cancel_requested = true }

abbrev sample_taken : ℕ × Device ℤ × ℕ
sample_taken = elim (next_sample sampling 0 1 9 (service_yaw_requests asked).imu) [
  | none ↦ (9, asked.imu, 1)
  | some o ↦ o
]

service_round_serves_example :
    (told : ℕ) × (after : Service ℤ) × (shown : Snapshot ℤ) × (service_round sampling 0 1 9 asked
        empty_snapshot
      ≡ some (told, after, shown))
    × ((after.start_requested ≡ false) × (after.cancel_requested ≡ false))
    × (sample_taken.1.gyro_scale ≡ (service_yaw_requests asked).imu.gyro_scale)
    × (((sample_taken.2 ≡ imu_ok)
          × (after
              ≡ update_yaw_calibration
                  (record (service_yaw_requests asked) { imu = sample_taken.1 })))
        ⊎ ((sample_taken.2 ≢ imu_ok)
            × (after ≡ record (service_yaw_requests asked) { imu = sample_taken.1 })))
    × (shown.yaw_cal_state ≡ after.yaw_cal.state)
    × (shown.gyro_scale_z ≡ after.imu.gyro_scale.z)
    × (shown.status ≡ sample_taken.2)
    × (shown.sequence ≡ u32 (0 + 1))
unfolding wait_and_update_imu wait_sample look get_data_ready service_yaw_requests serve_start
    serve_cancel start_yaw_calibration reset_attitude reset_sample_low_pass set_scale_z
    set_gyro_scale update update_with update_attitude take_sample update_auto_gyro_bias
    accel_is_trusted apply_feedback euler_from_quat feedback_error measured apply_sample_lowpass
    update_stationary_state init_handle instant_stationary update_complementary_attitude
    yaw_should_lock ◌+ℤ◌ ◌-ℤ◌
service_round_serves_example =
    service_round_serves sampling 0 1 9 sample_taken.0 asked empty_snapshot sample_taken.1
      sample_taken.2 refl
