-- ===== src/Imu/Rest.antt =====
-- The handle over samples that follow each other: the detection of rest, the learning of the bias and
-- the yaw that is held.
use nuedc_control_car_freert.Prelude.{
  ℕ, zero, suc, ◌+◌, ◌≤◌, ◌<◌, ◌≡◌, refl, ap, ◌∙◌, true, false, ◌⊎◌, inr, some, arith, ltb, leb,
  if◌then◌else◌, AllSome, all_and_then, all_any, of_some,
}
use nuedc_control_car_freert.Float.{Float, ◌⊖◌, ◌≺◌, ◌≼◌, lit, abs, zero_f}
use nuedc_control_car_freert.Imu.Loops.{turns, while_loop-ends}
use nuedc_control_car_freert.Imu.State.{complementary, mahony, one, Attitude, Device}
use nuedc_control_car_freert.Imu.Setters.{set_gyro_bias, at_least_one}
use nuedc_control_car_freert.Imu.Attitude.{
  norm_sq, yaw_should_lock, wrap_degrees_180, too_high, too_low, turn_back, turn_on,
  update_complementary_attitude, euler_from_quat,
}
use nuedc_control_car_freert.Imu.Mahony.{update_mahony_attitude, rotated_attitude, hold_yaw}
use nuedc_control_car_freert.Imu.Device.{
  Sample, measured, apply_sample_lowpass, update_stationary_state, update_auto_gyro_bias,
  take_sample, update_with, update_attitude, instant_stationary, hold_samples,
}

module _ {F : Type 0} ⦃f : Float F⦄ where
  -- n samples, one after the other, each of which meets a condition on the handle and the sample
  pub data Updated (P : Device F → Sample → Type 0) (d : Device F) : ℕ → Device F → Type 0 where
    no_sample : Updated P d 0 d
    one_more :
        {n : ℕ} {e g : Device F} (fuel : ℕ) (raw : Sample)
        → Updated P d n e
        → P e raw
        → update_with fuel e raw ≡ some g
        → Updated P d (suc n) g

  -- what an update leaves of the handle that has taken the sample: all but the attitude
  with_attitude :
      (fuel : ℕ) (d : Device F) (raw : Sample)
      → AllSome
          (λ g. (a : Attitude F) × (g ≡ record (take_sample d raw) { attitude = a }))
          (update_with fuel d raw)
  unfolding update_with
  with_attitude fuel d raw =
      let sampled = take_sample d raw in
      all_and_then (λ a. Unit) (λ g. (a : Attitude F) × (g ≡ record sampled { attitude = a }))
        (update_attitude fuel sampled sampled.settings.attitude_mode)
        (λ a. some (record sampled { attitude = a })) (all_any _) (λ a any. (a, refl))

  updated_lem :
      (fuel : ℕ) (d g : Device F) (raw : Sample)
      → update_with fuel d raw ≡ some g
      → (a : Attitude F) × (g ≡ record (take_sample d raw) { attitude = a })
  updated_lem fuel d g raw done =
      of_some _ (update_with fuel d raw) g (with_attitude fuel d raw) done

  bias_kept :
      (d : Device F) (raw : Sample)
      → d.gyro_bias_stationary_samples < 600
      → ((take_sample d raw).gyro_bias ≡ d.gyro_bias)
        × ((take_sample d raw).gyro_bias_stationary_samples ≤ d.gyro_bias_stationary_samples + 1)
  unfolding take_sample measured apply_sample_lowpass update_stationary_state update_auto_gyro_bias
  bias_kept d raw few = ground arith

  bias_run :
      {P : Device F → Sample → Type 0} {d e : Device F} {n : ℕ}
      → d.gyro_bias_stationary_samples ≡ 0
      → n ≤ 600
      → Updated P d n e
      → (e.gyro_bias ≡ d.gyro_bias) × (e.gyro_bias_stationary_samples ≤ n)
  bias_run fresh few no_sample = (refl, omega arith)
  bias_run {d = d} fresh few (one_more {n = n} {e = e} {g = g} fuel raw before p done) =
      let (same, count) = bias_run fresh (omega arith) before in
      let (kept, grown) = bias_kept e raw (omega arith) in
      let (a, shape) = updated_lem fuel e g raw done in
      (
        ap (λ g. g.gyro_bias) shape ∙ kept ∙ same,
        omega (arith, ap (λ g. g.gyro_bias_stationary_samples) shape, grown, count),
      )

  -- A gyroscope bias that is set stays as it was set for the next 600 samples, whatever they are: the
  -- learning starts only after as many samples at rest.
  pub bias_stays :
      (d e : Device F) (x y z : F) (n : ℕ)
      → n ≤ 600
      → Updated (λ before raw. Unit) (set_gyro_bias d x y z) n e
      → e.gyro_bias ≡ record { x = x; y = y; z = z }
  unfolding set_gyro_bias
  bias_stays d e x y z n few run = (bias_run refl few run).0

  -- A locked yaw is held by either filter.
  yaw_held :
      (fuel : ℕ) (d : Device F)
      → yaw_should_lock d ≡ true
      → AllSome
          (λ a. a.yaw_deg ≡ d.attitude.yaw_deg)
          (update_attitude fuel d d.settings.attitude_mode)
  unfolding update_attitude update_complementary_attitude update_mahony_attitude
  yaw_held fuel d locked =
      elim d.settings.attitude_mode
        as (λ mode. AllSome (λ a. a.yaw_deg ≡ d.attitude.yaw_deg) (update_attitude fuel d mode)) [
          | complementary ↦ rw locked refl
          | mahony ↦
              all_and_then (λ a. Unit) (λ a. a.yaw_deg ≡ d.attitude.yaw_deg)
                (euler_from_quat fuel (rotated_attitude d))
                (λ a. some (if yaw_should_lock d then hold_yaw d.attitude.yaw_deg a else a))
                (all_any _) (λ a any. rw locked refl)
        ]

  yaw_step :
      (fuel : ℕ) (d : Device F) (raw : Sample)
      → yaw_should_lock (take_sample d raw) ≡ true
      → AllSome
          (λ g. g.attitude.yaw_deg ≡ (take_sample d raw).attitude.yaw_deg)
          (update_with fuel d raw)
  unfolding update_with
  yaw_step fuel d raw locked =
      let sampled = take_sample d raw in
      all_and_then (λ a. a.yaw_deg ≡ sampled.attitude.yaw_deg)
        (λ g. g.attitude.yaw_deg ≡ sampled.attitude.yaw_deg)
        (update_attitude fuel sampled sampled.settings.attitude_mode)
        (λ a. some (record sampled { attitude = a })) (yaw_held fuel sampled locked)
        (λ a same. same)

  attitude_kept : (d : Device F) (raw : Sample) → (take_sample d raw).attitude ≡ d.attitude
  unfolding take_sample measured apply_sample_lowpass update_stationary_state update_auto_gyro_bias
  attitude_kept d raw = ground arith

  -- What the handle has measured is within the limits of rest, which are switched on: the acceleration
  -- is not nearly 0 and no further than its limit from 1 g, and the rate is at most its limit.
  abbrev pub AtRest : Device F → Sample → Type 0
  AtRest before raw =
      let d = measured before raw in
      let s = d.settings in
      ((lit 1 6 ≺ norm_sq d.accel_g) ≡ true)
      × ((zero_f ≺ s.stationary_gyro_threshold_dps) ≡ true)
      × ((zero_f ≼ s.stationary_accel_threshold_g) ≡ true)
      × ((f.sqrt (norm_sq d.gyro_dps) ≼ s.stationary_gyro_threshold_dps) ≡ true)
      × ((abs (f.sqrt (norm_sq d.accel_g) ⊖ one) ≼ s.stationary_accel_threshold_g) ≡ true)

  -- and, with the bias learnt from it, the rate about the vertical axis is at most 0.25 degrees per
  -- second
  abbrev pub AtRestAndSlow : Device F → Sample → Type 0
  AtRestAndSlow before raw =
      AtRest before raw × ((abs (take_sample before raw).gyro_dps.z ≼ lit 25 2) ≡ true)

  take_sample_rest :
      (d : Device F) (raw : Sample)
      → ((take_sample d raw).stationary_sample_count ≡ (measured d raw).stationary_sample_count)
        × ((take_sample d raw).stationary ≡ (measured d raw).stationary)
        × ((take_sample d raw).settings ≡ d.settings)
  unfolding take_sample measured apply_sample_lowpass update_stationary_state update_auto_gyro_bias
  take_sample_rest d raw = ground arith

  measured_rest :
      (d : Device F) (raw : Sample)
      → AtRest d raw
      → ((measured d raw).stationary_sample_count ≡ (
          if ltb d.stationary_sample_count (hold_samples d)
          then d.stationary_sample_count + 1
          else d.stationary_sample_count))
        × ((measured d raw).stationary
            ≡ leb (hold_samples d) (measured d raw).stationary_sample_count)
  unfolding measured apply_sample_lowpass update_stationary_state instant_stationary
  measured_rest d raw (some_g, gyro_on, accel_on, slow, level) =
      rw (some_g, gyro_on, accel_on, slow, level) (refl, refl)

  -- one more sample at rest: the count goes on up to the number that is needed
  rest_step :
      (fuel : ℕ) (d g : Device F) (raw : Sample)
      → AtRest d raw
      → update_with fuel d raw ≡ some g
      → (g.settings ≡ d.settings)
        × (g.stationary_sample_count ≡ (
            if ltb d.stationary_sample_count (hold_samples d)
            then d.stationary_sample_count + 1
            else d.stationary_sample_count))
  rest_step fuel d g raw rest done =
      let (a, shape) = updated_lem fuel d g raw done in
      let (count, still, settings) = take_sample_rest d raw in
      (
        ap (λ h. h.settings) shape ∙ settings,
        ap (λ h. h.stationary_sample_count) shape ∙ count ∙ (measured_rest d raw rest).0,
      )

  rest_run :
      (d e : Device F) (n : ℕ)
      → Updated AtRest d n e
      → (e.settings ≡ d.settings)
        × ((hold_samples d ≤ e.stationary_sample_count) ⊎ (n ≤ e.stationary_sample_count))
  rest_run d e zero no_sample = (refl, inr (omega arith))
  rest_run d e (suc n) (one_more {e = b} fuel raw before rest done) =
      let (same, long) = rest_run d b n before in
      let (settings, count) = rest_step fuel b e raw rest done in
      let hold : hold_samples b ≡ hold_samples d =
        ap (λ s. at_least_one s.stationary_hold_samples) same in
      (settings ∙ same, ground (arith, long, count, hold))

  yaw_run :
      (d e : Device F) (n : ℕ)
      → hold_samples d ≤ d.stationary_sample_count
      → Updated AtRestAndSlow d n e
      → (e.settings ≡ d.settings)
        × (hold_samples d ≤ e.stationary_sample_count)
        × (e.attitude.yaw_deg ≡ d.attitude.yaw_deg)
  unfolding yaw_should_lock
  yaw_run d e zero long no_sample = (refl, long, refl)
  yaw_run d e (suc n) long (one_more {e = b} fuel raw before (rest, slow) done) =
      let (same, still_long, kept) = yaw_run d b n long before in
      let (settings, count) = rest_step fuel b e raw rest done in
      let hold : hold_samples b ≡ hold_samples d =
        ap (λ s. at_least_one s.stationary_hold_samples) same in
      let (count', still, settings') = take_sample_rest b raw in
      let (counted, detected) = measured_rest b raw rest in
      let at_rest : (take_sample b raw).stationary ≡ true =
        still ∙ detected ∙ ground (arith, counted, still_long, hold) in
      let locked : yaw_should_lock (take_sample b raw) ≡ true = rw (at_rest, slow) refl in
      (
        settings ∙ same,
        ground (arith, still_long, count, hold),
        of_some (λ g. g.attitude.yaw_deg ≡ (take_sample b raw).attitude.yaw_deg)
              (update_with fuel b raw) e (yaw_step fuel b raw locked) done
            ∙ ap (λ a. a.yaw_deg) (attitude_kept b raw)
            ∙ kept,
      )

  -- Once k samples in a row have been within the limits of rest, where k is at least 1 and at least the
  -- number of samples that the setting asks for, the yaw does not drift: after any number of further
  -- samples that are at rest and turn at no more than 0.25 degrees per second it is what it was, with
  -- either attitude filter.
  pub yaw_stays :
      (d m e : Device F) (k n : ℕ)
      → 1 ≤ k
      → d.settings.stationary_hold_samples ≤ k
      → Updated AtRest d k m
      → Updated AtRestAndSlow m n e
      → e.attitude.yaw_deg ≡ m.attitude.yaw_deg
  yaw_stays d m e k n some_sample enough before after =
      let (same, long) = rest_run d m k before in
      let hold : hold_samples m ≡ hold_samples d =
        ap (λ s. at_least_one s.stationary_hold_samples) same in
      (yaw_run m e n (ground (arith, long, hold, some_sample, enough)) after).2

  -- The wrapping of an angle to 180 degrees ends: if n turns back bring it down to at most 180, and m
  -- turns on bring each angle met on the way above -180, then fuel for n and for m turns is enough,
  -- and the result is above -180.
  wrap_degrees_ends :
      (fuel n m : ℕ) (angle : F)
      → n ≤ fuel
      → m ≤ fuel
      → too_high (turns turn_back n angle) ≡ false
      → ((k : ℕ) → k ≤ n → too_low (turns turn_on m (turns turn_back k angle)) ≡ false)
      → (i : ℕ) × (j : ℕ) × (i ≤ n)
        × (j ≤ m)
        × (wrap_degrees_180 fuel angle ≡ some (turns turn_on j (turns turn_back i angle)))
        × (too_low (turns turn_on j (turns turn_back i angle)) ≡ false)
  unfolding wrap_degrees_180
  wrap_degrees_ends fuel n m angle p q high low =
      let (i, few, down, at_most) = while_loop-ends too_high turn_back fuel n angle p high in
      let lowered = turns turn_back i angle in
      let (j, few_on, up, above) = while_loop-ends too_low turn_on fuel m lowered q (low i few) in
      (i, j, few, few_on, rw (down, up) refl, above)
