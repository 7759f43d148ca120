-- ===== src/Imu/Task.antt =====
-- modules/imu/imu_service.c and imu_profile.c: the set-up of the handle, the calibration of the
-- gyroscope's bias, the snapshot, and the task. Loops run on fuel: `none` is a loop that has not
-- ended.
pub mod Started
mod Tests
use nuedc_control_car_freert.Prelude.{
  ℕ, zero, suc, ◌+◌, ◌-◌, Bool, true, false, not, ◌&&◌, ◌||◌, Option, none, some, and_then, ltb,
  ◌==◌, if◌then◌else◌,
}
use nuedc_control_car_freert.Prelude.Int.{pos}
use nuedc_control_car_freert.Prelude.Words.{u32, sub32}
use nuedc_control_car_freert.Float.{Float, ◌⊕◌, ◌⊖◌, ◌⊗◌, ◌⊘◌, ◌≺◌, lit, zero_f}
use nuedc_control_car_freert.Imu.State.{
  Axes, Device, mahony, one, zero_axes, init_handle, reset_attitude,
}
use nuedc_control_car_freert.Imu.Setters.{
  set_filter, set_sample_low_pass, set_stationary_detection, set_attitude_mode,
  set_accel_trust_window, set_accel_rejection, set_mahony_gains, set_gyro_scale, set_gyro_bias,
  set_gyro_bias_auto_update, reset_sample_low_pass,
}
use nuedc_control_car_freert.Imu.Driver.{imu_ok, imu_error, expected_who_am_i, read_who_am_i, begin}
use nuedc_control_car_freert.Imu.Calibration.{
  YawCalState, Service, cleared, update_yaw_calibration, service_yaw_requests,
}
use nuedc_control_car_freert.Imu.Wait.{Outside, wait_and_update_imu}

-- `ImuState_t`
pub data ImuState : Type 0 where
  off initializing calibrating ready fault : ImuState

-- `ImuSnapshot_t`
pub record Snapshot (F : Type 0) : Type 0 where
  pub sequence : ℕ
  pub timestamp_ms : ℕ
  pub accel_g : Axes F
  pub gyro_dps : Axes F
  pub temperature_c : F
  pub pitch_deg : F
  pub roll_deg : F
  pub yaw_deg : F
  pub gyro_bias_z_dps : F
  pub gyro_scale_z : F
  pub status : ℕ
  pub state : ImuState
  pub yaw_cal_state : YawCalState
  pub stationary : Bool
  pub is_ready : Bool

-- the sums of the rates and of their squares
pub record Sums (F : Type 0) : Type 0 where
  pub rate : Axes F
  pub square : Axes F

-- gyro_cal_warmup_samples and gyro_cal_samples
abbrev pub warmup_samples : ℕ
warmup_samples = 200

abbrev pub cal_samples : ℕ
cal_samples = 2000

module _ {F : Type 0} ⦃f : Float F⦄ where
  -- publish_snapshot, `old` being the snapshot before
  unfoldable pub publish_snapshot : ℕ → Service F → Snapshot F → ImuState → ℕ → Snapshot F
  publish_snapshot now s old state status = record {
    sequence = u32 (old.sequence + 1);
    timestamp_ms = now;
    accel_g = s.imu.accel_g;
    gyro_dps = s.imu.gyro_dps;
    temperature_c = s.imu.temp_c;
    pitch_deg = s.imu.attitude.pitch_deg;
    roll_deg = s.imu.attitude.roll_deg;
    yaw_deg = s.imu.attitude.yaw_deg;
    gyro_bias_z_dps = s.imu.gyro_bias.z;
    gyro_scale_z = s.imu.gyro_scale.z;
    status = status;
    state = state;
    yaw_cal_state = s.yaw_cal.state;
    stationary = s.imu.stationary;
    is_ready = s.imu.ready;
  }

  -- configure_imu_handle, with the values of g_imu_calibrated_profile; the bus is always set
  unfoldable pub configure_imu_handle : Device F
  configure_imu_handle =
      let filtered = set_filter (init_handle true) (lit 5 3) (lit 98 2) in
      let smoothed = set_sample_low_pass filtered (lit 30 0) zero_f in
      let detecting = set_stationary_detection smoothed (lit 15 1) (lit 8 2) 5 in
      let trusting = set_accel_trust_window (set_attitude_mode detecting mahony) (lit 15 2) in
      set_mahony_gains (set_accel_rejection trusting (lit 10 0)) (lit 1 0) zero_f

  abbrev pub add_rate : Sums F → Axes F → Sums F
  add_rate t g = record {
    rate = record { x = t.rate.x ⊕ g.x; y = t.rate.y ⊕ g.y; z = t.rate.z ⊕ g.z };
    square = record {
      x = t.square.x ⊕ g.x ⊗ g.x;
      y = t.square.y ⊕ g.y ⊗ g.y;
      z = t.square.z ⊕ g.z ⊗ g.z;
    };
  }

  unfoldable pub sample_stddev : F → F → ℕ → F
  sample_stddev sum sum_sq count =
      let mean = sum ⊘ f.of_int (pos count) in
      let variance = sum_sq ⊘ f.of_int (pos count) ⊖ mean ⊗ mean in
      if count == 0 then zero_f else f.sqrt (if variance ≺ zero_f then zero_f else variance)

  -- the deviation of an axis is above gyro_cal_stddev_limit_dps
  abbrev pub deviates : F → F → Bool
  deviates sum sum_sq = lit 5 1 ≺ sample_stddev sum sum_sq cal_samples

  abbrev pub any_deviates : Sums F → Bool
  any_deviates t =
      deviates t.rate.x t.square.x || deviates t.rate.y t.square.y || deviates t.rate.z t.square.z

  -- before the samples of a calibration
  unfoldable pub prepare_bias : Device F → Device F
  prepare_bias d =
      let unscaled = set_gyro_bias (set_gyro_scale d one one one) zero_f zero_f zero_f in
      reset_attitude (reset_sample_low_pass (set_gyro_bias_auto_update unscaled false zero_f))

  -- the mean of the samples; 0.994821 is gyro_z_scale and 0.002 is gyro_bias_learning_rate
  unfoldable pub apply_bias : Device F → Sums F → Device F
  apply_bias d t =
      let count = f.of_int (pos cal_samples) in
      let biased = set_gyro_bias d (t.rate.x ⊘ count) (t.rate.y ⊘ count) (t.rate.z ⊘ count) in
      let rescaled = set_gyro_scale biased one one (lit 994821 6) in
      reset_attitude (reset_sample_low_pass (set_gyro_bias_auto_update rescaled true (lit 2 3)))

module _ {V : Type 0} (out : Outside V) where
  -- while ((xTaskGetTickCount() - start) < delay_ticks)
  unfoldable pub delay_until : ℕ → ℕ → ℕ → V → Option V
  delay_until zero start delay_ticks v = none
  delay_until (suc fuel) start delay_ticks v =
      let (told, now) = out.tick_count v in
      let rest = delay_until fuel start delay_ticks (out.sleep (out.heartbeat told) 10) in
      if ltb (sub32 now start) delay_ticks then rest else some told

  unfoldable pub delay_with_heartbeat : ℕ → V → ℕ → Option V
  delay_with_heartbeat fuel v delay_ms =
      let (told, start) = out.tick_count v in delay_until fuel start delay_ms told

module _ {F : Type 0} ⦃f : Float F⦄ {V : Type 0} (out : Outside V) where
  -- ICM45688_DATA_TIMEOUT_MS; `fuel` serves the waits and `turns` the wrapping of angles
  abbrev pub next_sample : ℕ → ℕ → V → Device F → Option (V × Device F × ℕ)
  next_sample turns fuel v d = wait_and_update_imu out turns fuel 50 v d

  -- the samples from number `i` on, `left` of them; the warm-up is not summed
  unfoldable pub collect :
      ℕ → ℕ → ℕ → ℕ → V → Device F → Sums F → Option (V × Device F × ℕ × Sums F)
  collect turns fuel zero i v d t = some (v, d, imu_ok, t)
  collect turns fuel (suc left) i v d t = and_then (next_sample turns fuel v d) (λ (w, e, status).
      let summed = if ltb i warmup_samples then t else add_rate t e.gyro_dps in
      let rest = collect turns fuel left (i + 1) (out.heartbeat w) e summed in
      if status == imu_ok then rest else some (w, e, status, t))

  -- calibrate_gyro_bias, at most `attempts` times
  unfoldable pub calibrate_gyro_bias : ℕ → ℕ → ℕ → V → Device F → Option (V × Device F × ℕ)
  calibrate_gyro_bias turns fuel zero v d = none
  calibrate_gyro_bias turns fuel (suc attempts) v d =
      let none_yet : Sums F = record { rate = zero_axes; square = zero_axes } in
      and_then (collect turns fuel (warmup_samples + cal_samples) 0 v (prepare_bias d) none_yet)
        (λ (w, e, status, t).
          let retry =
            and_then (delay_with_heartbeat out fuel w 500)
              (λ later. calibrate_gyro_bias turns fuel attempts later e) in
          if not (status == imu_ok)
          then some (w, e, status)
          else if any_deviates t
          then retry
          else some (w, apply_bias e t, imu_ok))

  -- one attempt of `IMU_Service_Task` to set the handle up
  unfoldable pub attempt : V → V × Device F × ℕ
  attempt v =
      let (asked, read, status, who) = read_who_am_i out.vendor v configure_imu_handle in
      if status == imu_ok && who == expected_who_am_i
      then begin out.vendor asked read
      else (asked, read, status)

  -- the attempts that are left, up to the first good status; none are left at `d` and `status`
  unfoldable pub attempts : ℕ → ℕ → V → Device F → ℕ → Option (V × Device F × ℕ)
  attempts fuel zero v d status = some (v, d, status)
  attempts fuel (suc left) v d status =
      let (tried, made, answer) = attempt v in
      let rest =
        and_then (delay_with_heartbeat out fuel tried 200)
          (λ later. attempts fuel left later made answer) in
      if answer == imu_ok then some (tried, made, imu_ok) else rest

  -- the fault of `IMU_Service_Task`: what it publishes, and the detail of SYSTEM_FAULT_IMU
  abbrev pub stop_with_fault :
      V → Service F → Snapshot F → ℕ → V × Service F × Snapshot F × Option ℕ
  stop_with_fault v s old status =
      let (told, now) = out.tick_count v in
      (told, s, publish_snapshot now s old fault status, some status)

  -- the bias calibration of `IMU_Service_Task`, and what follows
  unfoldable pub calibrate_task :
      ℕ → ℕ → ℕ → V → Service F → Snapshot F → Option (V × Service F × Snapshot F × Option ℕ)
  calibrate_task turns fuel calibrations v s old =
      let (told, now) = out.tick_count v in
      let shown = publish_snapshot now s old calibrating imu_ok in
      and_then (calibrate_gyro_bias turns fuel calibrations told s.imu) (λ (w, imu, status).
        let measured = record s { imu = imu } in
        if status == imu_ok
        then some (w, record measured { yaw_cal = cleared }, shown, none)
        else some (stop_with_fault w measured shown status))

  -- `IMU_Service_Task` up to its loop: with none it goes on, with the detail of a fault it stops
  unfoldable pub start_task :
      ℕ → ℕ → ℕ → V → Service F → Snapshot F → Option (V × Service F × Snapshot F × Option ℕ)
  start_task turns fuel calibrations v s old =
      let (told, now) = out.tick_count v in
      let shown = publish_snapshot now s old initializing imu_error in
      and_then (attempts fuel 5 told s.imu imu_error) (λ (w, made, status).
        let set_up = record s { imu = made } in
        if status == imu_ok
        then calibrate_task turns fuel calibrations w set_up shown
        else some (stop_with_fault w set_up shown status))

  -- one round of the loop of `IMU_Service_Task`
  unfoldable pub service_round :
      ℕ → ℕ → V → Service F → Snapshot F → Option (V × Service F × Snapshot F)
  service_round turns fuel v s old =
      let served = service_yaw_requests s in
      and_then (next_sample turns fuel v served.imu) (λ (w, imu, status).
        let measured = record served { imu = imu } in
        let after = if status == imu_ok then update_yaw_calibration measured else measured in
        let (told, now) = out.tick_count w in
        some (out.heartbeat told, after, publish_snapshot now after old ready status))
