-- ===== src/Imu/Tests.antt =====
-- Runs of the device and of the calibration, and the theorems at concrete handles and samples.
use nuedc_control_car_freert.Prelude.{
  ℕ, zero, suc, ◌+◌, ◌≤◌, ◌≡◌, refl, true, false, none, some, arith, if◌then◌else◌,
}
use nuedc_control_car_freert.Prelude.Int.{ℤ, pos, ◌+ℤ◌, ◌-ℤ◌}
use nuedc_control_car_freert.Float.{lit}
use nuedc_control_car_freert.Float.Micro.{micro, micro-IsFloat}
use nuedc_control_car_freert.Imu.Loops.{turns}
use nuedc_control_car_freert.Imu.State.{Device, init_handle, reset_attitude}
use nuedc_control_car_freert.Imu.Setters.{set_gyro_scale, reset_sample_low_pass}
use nuedc_control_car_freert.Imu.Attitude.{yaw_should_lock, turn_back, turn_on, too_low}
use nuedc_control_car_freert.Imu.Device.{
  Sample, take_sample, update_with, update_attitude, measured, apply_sample_lowpass,
  update_stationary_state, update_auto_gyro_bias, instant_stationary, lpf_step, lpf_alpha,
}
use nuedc_control_car_freert.Imu.Driver.{Vendor, imu_ok, begin}
use nuedc_control_car_freert.Imu.Valid.{IsValid}
use nuedc_control_car_freert.Imu.Reached.{initial, called, begun, reached-IsValid}
use nuedc_control_car_freert.Imu.Outcomes.{Agrees, begin-Agrees}
use nuedc_control_car_freert.Imu.Rest.{no_sample, one_more, yaw_stays}
use nuedc_control_car_freert.Imu.Calibration.{
  Service, cleared, update_in, set_scale_z, serve_start, serve_cancel, cancel_yaw_calibration,
  request_yaw_calibration, update_yaw_calibration, service_yaw_requests, start_yaw_calibration,
}
use nuedc_control_car_freert.Imu.Calibration.Steps.{
  Consistent, stay, then_step, start_asked, served, no_samples, then_sample, is_complete,
  steps-Consistent, cancel_restores, restart_forgets,
}

-- at rest and level: 1 g along the third axis
abbrev level_sample : Sample
level_sample = record {
  accel = record { x = pos 0; y = pos 0; z = pos 2048 };
  gyro = record { x = pos 0; y = pos 0; z = pos 0 };
  temp = pos 0;
}

-- a chip that answers well, counting the calls
abbrev good_chip : Vendor ℕ
good_chip = record {
  who_am_i = λ n. (n + 1, imu_ok, 233);
  setup = λ n call. (n + 1, imu_ok);
  int_status = λ n. (n + 1, imu_ok, true);
  register_data = λ n. (n + 1, imu_ok, level_sample);
}

abbrev handle : Device ℤ
handle = init_handle true

abbrev running : Device ℤ
running = (begin good_chip 0 handle).1

begin-Agrees_example : Agrees good_chip (begin good_chip 0 handle)
unfolding init_handle
begin-Agrees_example = begin-Agrees good_chip 0 handle refl

reached-IsValid_example : IsValid running
reached-IsValid_example = reached-IsValid good_chip micro-IsFloat (called (initial true) (begun 0))

abbrev sampled_once : Device ℤ → Device ℤ
sampled_once d = elim (update_with 0 d level_sample) [ none ↦ d | some e ↦ e ]

-- a handle turned to the left, for which one sample makes rest
abbrev turned : Device ℤ
turned = record handle {
  settings = record handle.settings { stationary_hold_samples = 1 };
  attitude = record handle.attitude { yaw_deg = lit 90 0 };
}

abbrev resting : Device ℤ
resting = sampled_once turned

yaw_stays_example : (sampled_once resting).attitude.yaw_deg ≡ resting.attitude.yaw_deg
unfolding update_with update_attitude take_sample measured apply_sample_lowpass
    update_stationary_state update_auto_gyro_bias init_handle yaw_should_lock ◌+ℤ◌ ◌-ℤ◌
    instant_stationary lpf_step lpf_alpha
yaw_stays_example =
    yaw_stays turned resting (sampled_once resting) 1 1 (omega arith) (omega arith)
      (one_more 0 level_sample no_sample (refl, refl, refl, refl, refl) refl)
      (one_more 0 level_sample no_sample ((refl, refl, refl, refl, refl), refl) refl)

abbrev angle : ℤ
angle = lit 400 0

not_low : (k : ℕ) → k ≤ 1 → too_low (turns turn_on 0 (turns turn_back k angle)) ≡ false
unfolding ◌-ℤ◌
not_low zero h = refl
not_low (suc zero) h = refl
not_low (suc (suc k)) h = absurd (omega arith)

abbrev scaled : Device ℤ
scaled = set_gyro_scale handle (lit 1 0) (lit 1 0) (lit 99 2)

abbrev service : Service ℤ
service = record {
  imu = scaled;
  yaw_cal = cleared;
  start_requested = true;
  cancel_requested = false;
}

service-Consistent : Consistent micro-IsFloat service
unfolding set_gyro_scale init_handle
service-Consistent = record { positive = refl; held = tt }

abbrev asked : Service ℤ
asked = request_yaw_calibration service

steps-Consistent_example : Consistent micro-IsFloat (serve_start (serve_cancel asked))
unfolding service_yaw_requests
steps-Consistent_example =
    steps-Consistent micro-IsFloat (then_step (then_step stay start_asked) served)
      service-Consistent

abbrev turning : Service ℤ
turning = update_yaw_calibration (record (serve_start service) { imu = (serve_start service).imu })

cancel_restores_example :
    (serve_cancel (cancel_yaw_calibration turning)).imu.gyro_scale.z
    ≡ (if is_complete turning.yaw_cal.state then turning.yaw_cal.result_scale else lit 99 2)
unfolding set_gyro_scale init_handle
cancel_restores_example =
    cancel_restores micro-IsFloat service turning service-Consistent refl
      (then_sample (serve_start service).imu no_samples refl)

restart_forgets_example :
    (serve_cancel
      (cancel_yaw_calibration (serve_start (request_yaw_calibration turning)))).imu.gyro_scale.z
    ≡ lit 1 0
unfolding update_yaw_calibration serve_start start_yaw_calibration update_in reset_attitude
    reset_sample_low_pass set_scale_z set_gyro_scale init_handle
restart_forgets_example =
    restart_forgets micro-IsFloat service turning service-Consistent refl
      (then_sample (serve_start service).imu no_samples refl) refl
