-- ===== src/Imu/Calibration/Scale.antt =====
-- The scale of the yaw axis through a calibration.
use nuedc_control_car_freert.Prelude.{ℕ, ◌≡◌, refl, Bool, true, Bool-cases, inl, inr, ◌&&◌, arith}
use nuedc_control_car_freert.Float.{Float, IsFloat, ◌≺◌, ◌≼◌, ◌⊘◌, neg, lit, zero_f}
use nuedc_control_car_freert.Imu.State.{Device, one, reset_attitude}
use nuedc_control_car_freert.Imu.Setters.{set_gyro_scale, reset_sample_low_pass}
use nuedc_control_car_freert.Imu.Calibration.{
  YawCalState, idle, wait_still, wait_positive, positive_active, wait_negative, negative_active,
  complete, failed, YawCalibration, scale_is_valid, scales_agree, set_scale_z, fail_yaw_calibration,
  start_yaw_calibration, complete_yaw_calibration, settled, settle, capture_positive,
  capture_negative, update_in, joint_scale, four_laps, motion_start, least_turn, phase_yaw,
}

module _ {F : Type 0} ⦃f : Float F⦄ (laws : IsFloat F) where
  -- what each state says of the scale that the handle uses
  abbrev pub Holds : YawCalState → F → YawCalibration F → Type 0
  Holds idle scale c = Unit
  Holds wait_still scale c = (scale ≡ one) × (zero_f ≺ c.previous_scale ≡ true)
  Holds wait_positive scale c = (scale ≡ one) × (zero_f ≺ c.previous_scale ≡ true)
  Holds positive_active scale c = (scale ≡ one) × (zero_f ≺ c.previous_scale ≡ true)
  Holds wait_negative scale c = (scale ≡ one) × (zero_f ≺ c.previous_scale ≡ true)
  Holds negative_active scale c = (scale ≡ one) × (zero_f ≺ c.previous_scale ≡ true)
  Holds complete scale c =
      (scale ≡ c.result_scale)
      × (scale_is_valid scale ≡ true)
      × (scale_is_valid c.positive_scale ≡ true)
      × (scale_is_valid c.negative_scale ≡ true)
  Holds failed scale c = (scale ≡ c.previous_scale) × (zero_f ≺ c.previous_scale ≡ true)

  pub record IsConsistent (o : Device F × YawCalibration F) : Type 0 where
    pub positive : zero_f ≺ o.0.gyro_scale.z ≡ true
    pub held : Holds o.1.state o.0.gyro_scale.z o.1

  pub set_scale_z_lem :
      (d : Device F) (v : F) → zero_f ≺ v ≡ true → (set_scale_z d v).gyro_scale.z ≡ v
  unfolding set_scale_z set_gyro_scale
  set_scale_z_lem d v h = rw h refl

  valid_positive : (v : F) → scale_is_valid v ≡ true → zero_f ≺ v ≡ true
  unfolding scale_is_valid
  valid_positive v h =
      let above : lit 85 2 ≼ v ≡ true = ground arith in
      laws.lt_le_trans zero_f (lit 85 2) v (laws.lit_pos 85 2 (omega arith) (omega arith)) above

  fail-IsConsistent :
      (d : Device F) (c : YawCalibration F)
      → zero_f ≺ c.previous_scale ≡ true
      → IsConsistent (fail_yaw_calibration d c)
  unfolding fail_yaw_calibration reset_attitude
  fail-IsConsistent d c h =
      let scale = set_scale_z_lem d c.previous_scale h in
      record { positive = rw scale h; held = (scale, h) }

  pub start-IsConsistent :
      (d : Device F) → zero_f ≺ d.gyro_scale.z ≡ true → IsConsistent (start_yaw_calibration d)
  unfolding start_yaw_calibration reset_attitude reset_sample_low_pass
  start-IsConsistent d h =
      let unit : ◌≺◌ {F = F} zero_f one ≡ true = laws.lit_pos 1 0 (omega arith) (omega arith) in
      let scale = set_scale_z_lem d one unit in
      record { positive = rw scale unit; held = (scale, h) }

  agree_valid :
      (c : YawCalibration F)
      → scales_agree c ≡ true
      → (scale_is_valid c.positive_scale ≡ true) × (scale_is_valid c.negative_scale ≡ true)
  unfolding scales_agree
  agree_valid c h = ground arith

  complete-IsConsistent :
      (d : Device F) (c : YawCalibration F)
      → zero_f ≺ c.previous_scale ≡ true
      → IsConsistent (complete_yaw_calibration d c)
  unfolding complete_yaw_calibration reset_attitude
  complete-IsConsistent d c h =
      let result = joint_scale c in
      elim (Bool-cases (scales_agree c)) [
        | inr differ ↦ rw differ (fail-IsConsistent d c h)
        | inl agree ↦ elim (Bool-cases (scale_is_valid result)) [
          | inr wrong ↦
              rw (agree, wrong) (fail-IsConsistent d (record c { result_scale = result }) h)
          | inl valid ↦
              let (left, right) = agree_valid c agree in
              let scale = set_scale_z_lem d result (valid_positive result valid) in
              rw (agree, valid)
                (record {
                  positive = rw scale (valid_positive result valid);
                  held = (scale, rw scale valid, left, right);
                })
        ]
      ]

  capture_positive-IsConsistent :
      (d : Device F) (c : YawCalibration F)
      → zero_f ≺ d.gyro_scale.z ≡ true
      → d.gyro_scale.z ≡ one
      → zero_f ≺ c.previous_scale ≡ true
      → IsConsistent (capture_positive d c)
  unfolding capture_positive
  capture_positive-IsConsistent d c positive unit previous =
      let turned = phase_yaw d c in
      let scale = four_laps ⊘ turned in
      elim (Bool-cases (scale_is_valid scale)) [
        | inr wrong ↦ rw wrong (
            fail-IsConsistent d
              (record c {
                settle_samples = settle c;
                positive_measured_deg = turned;
                positive_scale = scale;
              })
              previous)
        | inl valid ↦ rw valid (record { positive = positive; held = (unit, previous) })
      ]

  settled_cases :
      (d : Device F) (c : YawCalibration F) (resting : Bool)
      (captured : Device F × YawCalibration F)
      → IsConsistent captured
      → ((count : ℕ) → IsConsistent (d, record c { settle_samples = count }))
      → IsConsistent (settled d c resting captured)
  settled_cases d c resting captured h k = ground (arith, h, k 0, k (settle c))

  reset-IsConsistent :
      (d : Device F) (c : YawCalibration F)
      → IsConsistent (d, c)
      → IsConsistent (reset_attitude d, c)
  unfolding reset_attitude
  reset-IsConsistent d c h = record { positive = h.positive; held = h.held }

  pub update_in-IsConsistent :
      (state : YawCalState) (d : Device F) (c : YawCalibration F)
      → IsConsistent (d, record c { state = state })
      → IsConsistent (update_in state d (record c { state = state }))
  unfolding update_in capture_negative
  update_in-IsConsistent idle d c h = h
  update_in-IsConsistent wait_still d c h =
      settled_cases d (record c { state = wait_still }) d.stationary _
        (reset-IsConsistent d _ (record { positive = h.positive; held = h.held }))
        (λ count. record { positive = h.positive; held = h.held })
  update_in-IsConsistent wait_positive d c h = elim (Bool-cases (motion_start ≼ d.gyro_dps.z)) [
    | inl turning ↦ rw turning (record { positive = h.positive; held = h.held })
    | inr still ↦ rw still h
  ]
  update_in-IsConsistent positive_active d c h =
      let c = record c { state = positive_active } in
      settled_cases d c (d.stationary && least_turn ≼ phase_yaw d c) (capture_positive d c)
        (capture_positive-IsConsistent d c h.positive h.held.0 h.held.1)
        (λ count. record { positive = h.positive; held = h.held })
  update_in-IsConsistent wait_negative d c h = elim (Bool-cases (d.gyro_dps.z ≼ neg motion_start)) [
    | inl turning ↦ rw turning (record { positive = h.positive; held = h.held })
    | inr still ↦ rw still h
  ]
  update_in-IsConsistent negative_active d c h =
      let c = record c { state = negative_active } in
      settled_cases d c (d.stationary && phase_yaw d c ≼ neg least_turn) (capture_negative d c)
        (complete-IsConsistent d _ h.held.1)
        (λ count. record { positive = h.positive; held = h.held })
  update_in-IsConsistent complete d c h = h
  update_in-IsConsistent failed d c h = h
