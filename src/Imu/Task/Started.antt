-- ===== src/Imu/Task/Started.antt =====
-- What the rounds of the IMU task do to the calibration, and how the task starts.
use nuedc_control_car_freert.Prelude.{
  ℕ, suc, ◌+◌, ◌≡◌, ◌≢◌, refl, true, false, Bool-cases, ◌⊎◌, inl, inr, Option, some, and_then,
  AllSome, all_and_then, all_any, of_some, arith, ◌==◌, if◌then◌else◌,
}
use nuedc_control_car_freert.Prelude.Words.{u32}
use nuedc_control_car_freert.Float.{Float}
use nuedc_control_car_freert.Imu.State.{Device, init_handle}
use nuedc_control_car_freert.Imu.Setters.{
  set_filter, set_sample_low_pass, set_stationary_detection, set_attitude_mode,
  set_accel_trust_window, set_accel_rejection, set_mahony_gains,
}
use nuedc_control_car_freert.Imu.Device.{
  Sample, apply_sample_lowpass, update_stationary_state, update_auto_gyro_bias, measured,
  take_sample, update_with, update_attitude,
}
use nuedc_control_car_freert.Imu.Driver.{Vendor, imu_ok, expected_who_am_i, read_who_am_i, update}
use nuedc_control_car_freert.Imu.Wait.{Outside, wait_sample, wait_and_update_imu}
use nuedc_control_car_freert.Imu.Calibration.{
  Service, service_yaw_requests, serve_start, serve_cancel, update_yaw_calibration,
}
use nuedc_control_car_freert.Imu.Calibration.Steps.{sampled, missed, served, Steps, stay, then_step}
use nuedc_control_car_freert.Imu.Task.{
  Snapshot, ready, publish_snapshot, configure_imu_handle, next_sample, attempt, attempts,
  service_round,
}

module _ {F : Type 0} ⦃f : Float F⦄ where
  take_sample_scale : (d : Device F) (raw : Sample) → (take_sample d raw).gyro_scale ≡ d.gyro_scale
  unfolding take_sample measured apply_sample_lowpass update_stationary_state update_auto_gyro_bias
  take_sample_scale d raw = ground arith

  update_with_scale :
      (turns : ℕ) (d : Device F) (raw : Sample)
      → AllSome (λ e. e.gyro_scale ≡ d.gyro_scale) (update_with turns d raw)
  unfolding update_with
  update_with_scale turns d raw =
      let s = take_sample d raw in
      all_and_then (λ a. Unit) (λ e. e.gyro_scale ≡ d.gyro_scale)
        (update_attitude turns s s.settings.attitude_mode) (λ a. some (record s { attitude = a }))
        (all_any _) (λ a any. take_sample_scale d raw)

  -- the calibration after a sample, or after a missed one
  abbrev pub after_sample : Service F → Device F → ℕ → Service F
  after_sample s imu status =
      if status == imu_ok
      then update_yaw_calibration (record s { imu = imu })
      else record s { imu = imu }

  pub no_requests :
      (s : Service F) (imu : Device F) (status : ℕ)
      → let after = after_sample (service_yaw_requests s) imu status in
        (after.start_requested ≡ false) × (after.cancel_requested ≡ false)
  unfolding service_yaw_requests serve_start serve_cancel update_yaw_calibration
  no_requests s imu status = ground arith

  -- the handle that a wrong identity leaves
  abbrev pub named : ℕ → Device F
  named who = record configure_imu_handle { last_who_am_i = who }

  module _ {V : Type 0} where
    Scaled : Device F → V × Device F × ℕ → Type 0
    Scaled d o = o.1.gyro_scale ≡ d.gyro_scale

    update_scale :
        (vendor : Vendor V) (turns : ℕ) (v : V) (d : Device F)
        → AllSome (Scaled d) (update vendor turns v d)
    unfolding update Scaled
    update_scale vendor turns v d =
        let (next, status, raw) = vendor.register_data v in
        let answer : Device F → Option (V × Device F × ℕ) = λ after. some (next, after, imu_ok) in
        let taken : AllSome (Scaled d) (and_then (update_with turns d raw) answer) =
          all_and_then (λ e. e.gyro_scale ≡ d.gyro_scale) (Scaled d) (update_with turns d raw)
            answer (update_with_scale turns d raw) (λ e same. same) in
        ground (arith, taken)

    wait_scale :
        (out : Outside V) (turns fuel timeout_ms : ℕ) (v : V) (d : Device F)
        → AllSome (Scaled d) (wait_and_update_imu out turns fuel timeout_ms v d)
    unfolding wait_and_update_imu Scaled
    wait_scale out turns fuel timeout_ms v d =
        let (told, start) = out.tick_count v in
        all_and_then (λ r. Unit) (Scaled d) (wait_sample out fuel start timeout_ms told d) _
          (all_any _)
          (λ (w, status) any.
            elim (status == imu_ok)
              as (λ good. AllSome (Scaled d) (elim good as (λ b. Option (V × Device F × ℕ)) [
                | true ↦ update out.vendor turns w d
                | false ↦ some (w, d, status)
              ])) [ true ↦ update_scale out.vendor turns w d | false ↦ refl ])

    -- A round of the IMU task is a sequence of the steps of the calibration.
    pub service_round-Steps :
        (out : Outside V) (turns fuel : ℕ) (v : V) (s : Service F) (old : Snapshot F)
        → AllSome (λ o. Steps s o.1) (service_round out turns fuel v s old)
    unfolding service_round Scaled
    service_round-Steps out turns fuel v s old =
        let served_now = service_yaw_requests s in
        all_and_then (Scaled served_now.imu) (λ o. Steps s o.1)
          (next_sample out turns fuel v served_now.imu) _
          (wait_scale out turns fuel 50 v served_now.imu)
          (λ (w, imu, status) same. elim (Bool-cases (status == imu_ok)) [
            | inl good ↦ rw good (then_step (then_step stay served) (sampled imu same))
            | inr failed ↦ rw failed (then_step (then_step stay served) (missed imu same))
          ])

    pub service_round_lem :
        (out : Outside V) (turns fuel : ℕ) (v w : V) (s : Service F) (old : Snapshot F)
        (imu : Device F) (status : ℕ)
        → next_sample out turns fuel v (service_yaw_requests s).imu ≡ some (w, imu, status)
        → let after = after_sample (service_yaw_requests s) imu status in
          let (told, now) = out.tick_count w in
          service_round out turns fuel v s old
          ≡ some (out.heartbeat told, after, publish_snapshot now after old ready status)
    unfolding service_round
    service_round_lem out turns fuel v w s old imu status taken = rw taken refl

    -- A round of the IMU task, if its wait for a sample comes to an end, serves the requests before the
    -- sample: no request is pending after it. The calibration that was served goes through one sample
    -- if the status is good and is else as it was, with a handle whose scales are those that the requests
    -- left, and the snapshot shows the state, the status and the scale after the round, under the next
    -- number.
    pub service_round_serves :
        (out : Outside V) (turns fuel : ℕ) (v w : V) (s : Service F) (old : Snapshot F)
        (imu : Device F) (status : ℕ)
        → next_sample out turns fuel v (service_yaw_requests s).imu ≡ some (w, imu, status)
        → (told : V) × (after : Service F) × (shown : Snapshot F) × (service_round out turns fuel v
              s old
            ≡ some (told, after, shown))
          × ((after.start_requested ≡ false) × (after.cancel_requested ≡ false))
          × (imu.gyro_scale ≡ (service_yaw_requests s).imu.gyro_scale)
          × (((status ≡ imu_ok)
                × (after ≡ update_yaw_calibration (record (service_yaw_requests s) { imu = imu })))
              ⊎ ((status ≢ imu_ok) × (after ≡ record (service_yaw_requests s) { imu = imu })))
          × (shown.yaw_cal_state ≡ after.yaw_cal.state)
          × (shown.gyro_scale_z ≡ after.imu.gyro_scale.z)
          × (shown.status ≡ status)
          × (shown.sequence ≡ u32 (old.sequence + 1))
    unfolding publish_snapshot Scaled
    service_round_serves out turns fuel v w s old imu status taken =
        let served_now = service_yaw_requests s in
        let after = after_sample served_now imu status in
        let (told, now) = out.tick_count w in
        let outcome : ((status ≡ imu_ok)
              × (after ≡ update_yaw_calibration (record served_now { imu = imu })))
            ⊎ ((status ≢ imu_ok) × (after ≡ record served_now { imu = imu })) =
          elim (Bool-cases (status == imu_ok)) [
            | inl good ↦ inl (ground arith, rw good refl)
            | inr failed ↦ inr (ground arith, rw failed refl)
          ] in
        (
          out.heartbeat told,
          after,
          publish_snapshot now after old ready status,
          service_round_lem out turns fuel v w s old imu status taken,
          no_requests s imu status,
          of_some (Scaled served_now.imu) (next_sample out turns fuel v served_now.imu)
              (w, imu, status) (wait_scale out turns fuel 50 v served_now.imu) taken,
          outcome,
          refl,
          refl,
          refl,
          refl,
        )

    attempt_wrong :
        (out : Outside V) (v : V)
        → (out.vendor.who_am_i v).1 ≡ imu_ok
        → (out.vendor.who_am_i v).2 ≢ expected_who_am_i
        → attempt out v ≡ ((out.vendor.who_am_i v).0, named (out.vendor.who_am_i v).2, imu_ok)
    unfolding attempt read_who_am_i
    attempt_wrong out v good other =
        let is_other : ((out.vendor.who_am_i v).2 == expected_who_am_i) ≡ false = ground arith in
        rw (good, is_other) refl

    -- If the chip answers well but with another identity than the expected one, the task takes the
    -- good status for a set-up that has succeeded: it stops after the first attempt, and the handle
    -- with which it goes on to the calibration is not ready.
    pub wrong_identity :
        (out : Outside V) (fuel left : ℕ) (v : V) (d : Device F) (status : ℕ)
        → (out.vendor.who_am_i v).1 ≡ imu_ok
        → (out.vendor.who_am_i v).2 ≢ expected_who_am_i
        → (w : V) × (made : Device F) × (attempts out fuel (suc left) v d status
            ≡ some (w, made, imu_ok))
          × (made.ready ≡ false)
    unfolding attempts configure_imu_handle init_handle set_filter set_sample_low_pass
        set_stationary_detection set_attitude_mode set_accel_trust_window set_accel_rejection
        set_mahony_gains
    wrong_identity out fuel left v d status good other =
        let (asked, answer, who) = out.vendor.who_am_i v in
        (asked, named who, rw (attempt_wrong out v good other) refl, refl)
