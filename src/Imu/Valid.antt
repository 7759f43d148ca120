-- ===== src/Imu/Valid.antt =====
-- What holds of the handle whatever is done with it, and whatever the chip answers.
use nuedc_control_car_freert.Prelude.{
  ℕ, ◌≤◌, ◌≡◌, refl, Bool, true, false, Option, some, Bool-cases, inl, inr, AllSome, all_and_then,
  all_any, ap, and_then, arith, leb,
}
use nuedc_control_car_freert.Float.{Float, IsFloat, ◌≺◌, ◌≼◌, lit, zero_f}
use nuedc_control_car_freert.Imu.State.{Axes, Attitude, Device, init_handle, clear_measurements}
use nuedc_control_car_freert.Imu.Setters.{
  at_least_one, accept, set_gyro_scale, set_stationary_detection,
}
use nuedc_control_car_freert.Imu.Device.{
  Sample, hold_samples, apply_sample_lowpass, update_stationary_state, update_auto_gyro_bias,
  measured, take_sample, update_with, update_attitude, count_still, instant_stationary, full_scale,
}
use nuedc_control_car_freert.Imu.Driver.{
  Vendor, imu_ok, write_drive_config, read_who_am_i, begin_setup, begin_identity, begin, update,
}

fresh_count :
    (n : ℕ) → (0 ≤ at_least_one (at_least_one n)) × (false ≡ leb (at_least_one (at_least_one n)) 0)
fresh_count n = ground arith

counted : (still : Bool) (hold count : ℕ) → count ≤ hold → count_still still hold count ≤ hold
counted still hold count h = ground arith

module _ {F : Type 0} ⦃f : Float F⦄ where
  -- the counts within their bounds, the flag of rest as the count says, positive scales and thresholds
  pub record IsValid (d : Device F) : Type 0 where
    pub count : d.stationary_sample_count ≤ hold_samples d
    pub rest : d.stationary ≡ leb (hold_samples d) d.stationary_sample_count
    pub learned : d.gyro_bias_stationary_samples ≤ 600
    pub scale_x : zero_f ≺ d.gyro_scale.x ≡ true
    pub scale_y : zero_f ≺ d.gyro_scale.y ≡ true
    pub scale_z : zero_f ≺ d.gyro_scale.z ≡ true
    pub gyro_threshold : zero_f ≺ d.settings.stationary_gyro_threshold_dps ≡ true
    pub accel_threshold : zero_f ≼ d.settings.stationary_accel_threshold_g ≡ true

  pub init_handle-IsValid : IsFloat F → (bus : Bool) → IsValid (init_handle bus)
  unfolding init_handle
  init_handle-IsValid laws bus = record {
    count = ground arith;
    rest = refl;
    learned = ground arith;
    scale_x = laws.lit_pos 1 0 (omega arith) (omega arith);
    scale_y = laws.lit_pos 1 0 (omega arith) (omega arith);
    scale_z = laws.lit_pos 1 0 (omega arith) (omega arith);
    gyro_threshold = laws.lit_pos 15 1 (omega arith) (omega arith);
    accel_threshold = laws.lt-le zero_f (lit 8 2) (laws.lit_pos 8 2 (omega arith) (omega arith));
  }

  -- a handle that agrees where it matters
  pub keeps_IsValid :
      (d e : Device F)
      → IsValid d
      → e.stationary_sample_count ≡ d.stationary_sample_count
      → e.stationary ≡ d.stationary
      → e.gyro_bias_stationary_samples ≤ 600
      → e.gyro_scale ≡ d.gyro_scale
      → e.settings.stationary_hold_samples ≡ d.settings.stationary_hold_samples
      → e.settings.stationary_gyro_threshold_dps ≡ d.settings.stationary_gyro_threshold_dps
      → e.settings.stationary_accel_threshold_g ≡ d.settings.stationary_accel_threshold_g
      → IsValid e
  keeps_IsValid d e h count rest learned scale hold gyro accel = record {
    count = rw (count, hold) h.count;
    rest = rw (count, rest, hold) h.rest;
    learned = learned;
    scale_x = rw scale h.scale_x;
    scale_y = rw scale h.scale_y;
    scale_z = rw scale h.scale_z;
    gyro_threshold = rw gyro h.gyro_threshold;
    accel_threshold = rw accel h.accel_threshold;
  }

  accept_lem :
      (test : F → Bool) (new old : F) → test old ≡ true → test (accept (test new) new old) ≡ true
  accept_lem test new old h = elim (Bool-cases (test new)) [
    | inl taken ↦ rw taken taken
    | inr refused ↦ rw refused h
  ]

  pub set_gyro_scale-IsValid :
      (d : Device F) (x y z : F) → IsValid d → IsValid (set_gyro_scale d x y z)
  unfolding set_gyro_scale
  set_gyro_scale-IsValid d x y z h = record {
    count = h.count;
    rest = h.rest;
    learned = h.learned;
    scale_x = accept_lem (λ v. zero_f ≺ v) x d.gyro_scale.x h.scale_x;
    scale_y = accept_lem (λ v. zero_f ≺ v) y d.gyro_scale.y h.scale_y;
    scale_z = accept_lem (λ v. zero_f ≺ v) z d.gyro_scale.z h.scale_z;
    gyro_threshold = h.gyro_threshold;
    accel_threshold = h.accel_threshold;
  }

  pub set_stationary_detection-IsValid :
      (d : Device F) (gyro accel : F) (hold : ℕ)
      → IsValid d
      → IsValid (set_stationary_detection d gyro accel hold)
  unfolding set_stationary_detection
  set_stationary_detection-IsValid d gyro accel hold h = record {
    count = (fresh_count hold).0;
    rest = (fresh_count hold).1;
    learned = omega arith;
    scale_x = h.scale_x;
    scale_y = h.scale_y;
    scale_z = h.scale_z;
    gyro_threshold =
        accept_lem (λ v. zero_f ≺ v) gyro d.settings.stationary_gyro_threshold_dps h.gyro_threshold;
    accel_threshold =
        accept_lem (λ v. zero_f ≼ v) accel d.settings.stationary_accel_threshold_g
          h.accel_threshold;
  }

  clear_measurements-IsValid : (d : Device F) → IsValid d → IsValid (clear_measurements d)
  unfolding clear_measurements
  clear_measurements-IsValid d h = record {
    count = ground arith;
    rest = ground arith;
    learned = omega arith;
    scale_x = h.scale_x;
    scale_y = h.scale_y;
    scale_z = h.scale_z;
    gyro_threshold = h.gyro_threshold;
    accel_threshold = h.accel_threshold;
  }

  update_stationary_state-IsValid : (d : Device F) → IsValid d → IsValid (update_stationary_state d)
  unfolding update_stationary_state
  update_stationary_state-IsValid d h = record {
    count = counted (instant_stationary d) (hold_samples d) d.stationary_sample_count h.count;
    rest = refl;
    learned = h.learned;
    scale_x = h.scale_x;
    scale_y = h.scale_y;
    scale_z = h.scale_z;
    gyro_threshold = h.gyro_threshold;
    accel_threshold = h.accel_threshold;
  }

  -- what the learning of the bias leaves as it is
  learn_keeps :
      (d : Device F) (raw : Axes F)
      → d.gyro_bias_stationary_samples ≤ 600
      → let e = update_auto_gyro_bias d raw in
        (e.stationary_sample_count ≡ d.stationary_sample_count)
        × (e.stationary ≡ d.stationary)
        × (e.gyro_bias_stationary_samples ≤ 600)
        × (e.gyro_scale ≡ d.gyro_scale)
        × (e.settings ≡ d.settings)
  unfolding update_auto_gyro_bias
  learn_keeps d raw h = ground arith

  measured-IsValid : (d : Device F) (raw : Sample) → IsValid d → IsValid (measured d raw)
  unfolding measured apply_sample_lowpass
  measured-IsValid d raw h =
      update_stationary_state-IsValid _
        (keeps_IsValid d _ h refl refl h.learned refl refl refl refl)

  pub take_sample-IsValid : (d : Device F) (raw : Sample) → IsValid d → IsValid (take_sample d raw)
  unfolding take_sample
  take_sample-IsValid d raw h =
      let seen = measured d raw in
      let valid = measured-IsValid d raw h in
      let (count, rest, learned, scale, settings) =
        learn_keeps seen (full_scale raw.gyro d.gyro_fsr_dps) valid.learned in
      keeps_IsValid seen (take_sample d raw) valid count rest learned scale
        (ap (λ s. s.stationary_hold_samples) settings)
        (ap (λ s. s.stationary_gyro_threshold_dps) settings)
        (ap (λ s. s.stationary_accel_threshold_g) settings)

  with_attitude-IsValid :
      (d : Device F) (a : Attitude F) → IsValid d → IsValid (record d { attitude = a })
  with_attitude-IsValid d a h = keeps_IsValid d _ h refl refl h.learned refl refl refl refl

  update_with-IsValid :
      (fuel : ℕ) (d : Device F) (raw : Sample)
      → IsValid d
      → AllSome IsValid (update_with fuel d raw)
  unfolding update_with
  update_with-IsValid fuel d raw h =
      let sampled = take_sample d raw in
      all_and_then (λ a. Unit) IsValid (update_attitude fuel sampled sampled.settings.attitude_mode)
        (λ a. some (record sampled { attitude = a })) (all_any _)
        (λ a any. with_attitude-IsValid sampled a (take_sample-IsValid d raw h))

  relabelled :
      (d : Device F) (ready : Bool) (who : ℕ)
      → IsValid d
      → IsValid (record d { ready = ready; last_who_am_i = who })
  relabelled d ready who h = keeps_IsValid d _ h refl refl h.learned refl refl refl refl

  module _ {V : Type 0} (vendor : Vendor V) where
    pub update-IsValid :
        (fuel : ℕ) (v : V) (d : Device F)
        → IsValid d
        → AllSome (λ o. IsValid o.1) (update vendor fuel v d)
    unfolding update
    update-IsValid fuel v d h =
        let (next, status, raw) = vendor.register_data v in
        let answer : Device F → Option (V × Device F × ℕ) = λ after. some (next, after, imu_ok) in
        let taken : AllSome (λ o. IsValid o.1) (and_then (update_with fuel d raw) answer) =
          all_and_then IsValid (λ o. IsValid o.1) (update_with fuel d raw) answer
            (update_with-IsValid fuel d raw h) (λ e valid. valid) in
        ground (arith, h, taken)

    pub read_who_am_i-IsValid :
        (v : V) (d : Device F) → IsValid d → IsValid (read_who_am_i vendor v d).1
    unfolding read_who_am_i
    read_who_am_i-IsValid v d h =
        let (next, status, who) = vendor.who_am_i v in ground (arith, h, relabelled d d.ready who h)

    begin_setup-IsValid : (v : V) (d : Device F) → IsValid d → IsValid (begin_setup vendor v d).1
    unfolding begin_setup
    begin_setup-IsValid v d h = ground (arith, h, relabelled d true d.last_who_am_i h)

    begin_identity-IsValid :
        (v : V) (d : Device F) → IsValid d → IsValid (begin_identity vendor v d).1
    unfolding begin_identity
    begin_identity-IsValid v d h =
        let (next, read, status, who) = read_who_am_i vendor v d in
        let valid : IsValid read = read_who_am_i-IsValid v d h in
        ground (arith, valid, begin_setup-IsValid next read valid)

    pub begin-IsValid : (v : V) (d : Device F) → IsValid d → IsValid (begin vendor v d).1
    unfolding begin
    begin-IsValid v d h =
        let cleared = clear_measurements (record d { ready = false }) in
        let valid : IsValid cleared =
          clear_measurements-IsValid _ (relabelled d false d.last_who_am_i h) in
        let (next, status) = vendor.setup v write_drive_config in
        ground (arith, h, valid, begin_identity-IsValid next cleared valid)
