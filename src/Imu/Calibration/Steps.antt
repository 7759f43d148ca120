-- ===== src/Imu/Calibration/Steps.antt =====
-- The calibration of the yaw scale over any sequence of samples and requests.
use nuedc_control_car_freert.Prelude.{
  ◌≡◌, refl, ap, ◌∙◌, Bool, true, false, Bool-cases, inl, inr, ◌&&◌, not, arith, if◌then◌else◌,
}
use nuedc_control_car_freert.Float.{Float, IsFloat, ◌≺◌, zero_f}
use nuedc_control_car_freert.Imu.State.{Device, one, reset_attitude}
use nuedc_control_car_freert.Imu.Calibration.{
  YawCalState, idle, wait_still, wait_positive, positive_active, wait_negative, negative_active,
  complete, failed, YawCalibration, Service, is_open, set_scale_z, fail_yaw_calibration,
  start_yaw_calibration, complete_yaw_calibration, capture_positive, capture_negative, update_in,
  update_yaw_calibration, serve_cancel, serve_start, service_yaw_requests, request_yaw_calibration,
  cancel_yaw_calibration,
}
use nuedc_control_car_freert.Imu.Calibration.Scale.{
  Holds, IsConsistent, set_scale_z_lem, start-IsConsistent, update_in-IsConsistent,
}

abbrev pub is_idle : YawCalState → Bool
is_idle idle = true
is_idle wait_still = false
is_idle wait_positive = false
is_idle positive_active = false
is_idle wait_negative = false
is_idle negative_active = false
is_idle complete = false
is_idle failed = false

abbrev pub is_complete : YawCalState → Bool
is_complete complete = true
is_complete idle = false
is_complete wait_still = false
is_complete wait_positive = false
is_complete positive_active = false
is_complete wait_negative = false
is_complete negative_active = false
is_complete failed = false

abbrev pub is_failed : YawCalState → Bool
is_failed failed = true
is_failed idle = false
is_failed wait_still = false
is_failed wait_positive = false
is_failed positive_active = false
is_failed wait_negative = false
is_failed negative_active = false
is_failed complete = false

-- the laps are being driven
abbrev pub is_active : YawCalState → Bool
is_active state = is_open state && not (is_failed state)

module _ {F : Type 0} ⦃f : Float F⦄ where
  -- One step of the task or of another one. The handle may measure anything between two steps, but
  -- its scales change only here.
  pub data Step (s : Service F) : Service F → Type 0 where
    sampled :
        (d : Device F)
        → d.gyro_scale ≡ s.imu.gyro_scale
        → Step s (update_yaw_calibration (record s { imu = d }))
    missed : (d : Device F) → d.gyro_scale ≡ s.imu.gyro_scale → Step s (record s { imu = d })
    served : Step s (service_yaw_requests s)
    start_asked : Step s (request_yaw_calibration s)
    cancel_asked : Step s (cancel_yaw_calibration s)

  pub data Steps (s : Service F) : Service F → Type 0 where
    stay : Steps s s
    then_step : {t u : Service F} → Steps s t → Step t u → Steps s u

  -- samples alone
  pub data Samples (s : Service F) : Service F → Type 0 where
    no_samples : Samples s s
    then_sample :
        {t : Service F} (d : Device F)
        → Samples s t
        → d.gyro_scale ≡ t.imu.gyro_scale
        → Samples s (update_yaw_calibration (record t { imu = d }))

  update_in_previous :
      (state : YawCalState) (d : Device F) (c : YawCalibration F)
      → (update_in state d c).1.previous_scale ≡ c.previous_scale
  unfolding update_in capture_positive capture_negative complete_yaw_calibration
      fail_yaw_calibration
  update_in_previous idle d c = refl
  update_in_previous wait_still d c = ground arith
  update_in_previous wait_positive d c = ground arith
  update_in_previous positive_active d c = ground arith
  update_in_previous wait_negative d c = ground arith
  update_in_previous negative_active d c = ground arith
  update_in_previous complete d c = refl
  update_in_previous failed d c = refl

  update_in_busy :
      (state : YawCalState) (d : Device F) (c : YawCalibration F)
      → is_idle state ≡ false
      → is_idle (update_in state d (record c { state = state })).1.state ≡ false
  unfolding update_in capture_positive capture_negative complete_yaw_calibration
      fail_yaw_calibration
  update_in_busy idle d c h = h
  update_in_busy wait_still d c h = ground arith
  update_in_busy wait_positive d c h = ground arith
  update_in_busy positive_active d c h = ground arith
  update_in_busy wait_negative d c h = ground arith
  update_in_busy negative_active d c h = ground arith
  update_in_busy complete d c h = refl
  update_in_busy failed d c h = refl

module _ {F : Type 0} ⦃f : Float F⦄ (laws : IsFloat F) where
  abbrev pub Consistent : Service F → Type 0
  Consistent s = IsConsistent laws (s.imu, s.yaw_cal)

  moved :
      (s : Service F) (d : Device F)
      → d.gyro_scale ≡ s.imu.gyro_scale
      → Consistent s
      → Consistent (record s { imu = d })
  moved s d same h =
      let scale = ap (λ g. g.z) same in
      record { positive = rw scale h.positive; held = rw scale h.held }

  sample-Consistent : (s : Service F) → Consistent s → Consistent (update_yaw_calibration s)
  unfolding update_yaw_calibration
  sample-Consistent s h = update_in-IsConsistent laws s.yaw_cal.state s.imu s.yaw_cal h

  serve_cancel-Consistent : (s : Service F) → Consistent s → Consistent (serve_cancel s)
  unfolding serve_cancel reset_attitude
  serve_cancel-Consistent s h =
      let previous = s.yaw_cal.previous_scale in
      elim (Bool-cases s.cancel_requested) [
        | inr not_asked ↦ rw not_asked h
        | inl asked ↦ elim (Bool-cases (is_open s.yaw_cal.state && zero_f ≺ previous)) [
          | inr kept ↦ rw (asked, kept) (record { positive = h.positive; held = tt })
          | inl back ↦
              let above : zero_f ≺ previous ≡ true = ground arith in
              rw (asked, back)
                (record {
                  positive = rw (set_scale_z_lem laws s.imu previous above) above;
                  held = tt;
                })
        ]
      ]

  serve_start-Consistent : (s : Service F) → Consistent s → Consistent (serve_start s)
  unfolding serve_start
  serve_start-Consistent s h = elim (Bool-cases s.start_requested) [
    | inl asked ↦ rw asked (start-IsConsistent laws s.imu h.positive)
    | inr not_asked ↦ rw not_asked h
  ]

  step-Consistent : {s t : Service F} → Step s t → Consistent s → Consistent t
  unfolding service_yaw_requests request_yaw_calibration cancel_yaw_calibration
  step-Consistent {s = s} (sampled d same) h =
      sample-Consistent (record s { imu = d }) (moved s d same h)
  step-Consistent {s = s} (missed d same) h = moved s d same h
  step-Consistent {s = s} served h =
      serve_start-Consistent (serve_cancel s) (serve_cancel-Consistent s h)
  step-Consistent start_asked h = h
  step-Consistent cancel_asked h = h

  -- Over any sequence of samples, missed samples and requests: the scale of the yaw axis stays
  -- positive; while the laps are being driven it is 1; after a failed calibration it is the scale from
  -- before; and a calibration is complete only with the new scale in use and with that scale and those
  -- of both directions from 0.85 to 1.15.
  pub steps-Consistent : {s t : Service F} → Steps s t → Consistent s → Consistent t
  steps-Consistent stay h = h
  steps-Consistent (then_step before step) h = step-Consistent step (steps-Consistent before h)

  -- neither idle nor without the scale from before
  abbrev Started : F → Service F → Type 0
  Started scale t =
      Consistent t × (is_idle t.yaw_cal.state ≡ false) × (t.yaw_cal.previous_scale ≡ scale)

  started :
      (s t : Service F)
      → s.start_requested ≡ true
      → Consistent s
      → Samples (serve_start s) t
      → Started s.imu.gyro_scale.z t
  unfolding serve_start start_yaw_calibration update_yaw_calibration
  started s t asked h no_samples = (serve_start-Consistent s h, rw asked refl, rw asked refl)
  started s t asked h (then_sample {t = u} d before same) =
      let (ok, busy, previous) = started s u asked h before in
      let c = u.yaw_cal in
      (
        sample-Consistent (record u { imu = d }) (moved u d same ok),
        update_in_busy c.state d c busy,
        update_in_previous c.state d c ∙ previous,
      )

  -- the scale after a cancel
  cancelled :
      (state : YawCalState) (d : Device F) (c : YawCalibration F)
      → Holds laws state d.gyro_scale.z c
      → is_idle state ≡ false
      → (if is_open state && zero_f ≺ c.previous_scale
          then set_scale_z d c.previous_scale
          else d).gyro_scale.z
        ≡ (if is_complete state then c.result_scale else c.previous_scale)
  cancelled idle d c h busy = absurd (ground arith)
  cancelled wait_still d c (unit, above) busy =
      rw above (set_scale_z_lem laws d c.previous_scale above)
  cancelled wait_positive d c (unit, above) busy =
      rw above (set_scale_z_lem laws d c.previous_scale above)
  cancelled positive_active d c (unit, above) busy =
      rw above (set_scale_z_lem laws d c.previous_scale above)
  cancelled wait_negative d c (unit, above) busy =
      rw above (set_scale_z_lem laws d c.previous_scale above)
  cancelled negative_active d c (unit, above) busy =
      rw above (set_scale_z_lem laws d c.previous_scale above)
  cancelled complete d c h busy = h.0
  cancelled failed d c (old, above) busy = rw above (set_scale_z_lem laws d c.previous_scale above)

  active_unit :
      (state : YawCalState) (d : Device F) (c : YawCalibration F)
      → Holds laws state d.gyro_scale.z c
      → is_active state ≡ true
      → d.gyro_scale.z ≡ one
  active_unit idle d c h active = absurd (ground arith)
  active_unit wait_still d c h active = h.0
  active_unit wait_positive d c h active = h.0
  active_unit positive_active d c h active = h.0
  active_unit wait_negative d c h active = h.0
  active_unit negative_active d c h active = h.0
  active_unit complete d c h active = absurd (ground arith)
  active_unit failed d c h active = absurd (ground arith)

  -- A calibration that is started, carried on by any samples and then cancelled puts the scale of the
  -- yaw axis back to what it was before, whatever state it has come to, unless it is complete: then
  -- the new scale stays.
  pub cancel_restores :
      (s t : Service F)
      → Consistent s
      → s.start_requested ≡ true
      → Samples (serve_start s) t
      → (serve_cancel (cancel_yaw_calibration t)).imu.gyro_scale.z
        ≡ (if is_complete t.yaw_cal.state then t.yaw_cal.result_scale else s.imu.gyro_scale.z)
  unfolding serve_cancel cancel_yaw_calibration reset_attitude
  cancel_restores s t h asked run =
      let (ok, busy, previous) = started s t asked h run in
      cancelled t.yaw_cal.state t.imu t.yaw_cal ok.held busy
      ∙ ap (λ p. if is_complete t.yaw_cal.state then t.yaw_cal.result_scale else p) previous

  -- Starting a calibration while one is open forgets the scale from before: a cancel then leaves the
  -- scale 1 of the laps.
  pub restart_forgets :
      (s t : Service F)
      → Consistent s
      → s.start_requested ≡ true
      → Samples (serve_start s) t
      → is_active t.yaw_cal.state ≡ true
      → (serve_cancel
          (cancel_yaw_calibration (serve_start (request_yaw_calibration t)))).imu.gyro_scale.z
        ≡ one
  unfolding serve_cancel cancel_yaw_calibration reset_attitude serve_start request_yaw_calibration
      start_yaw_calibration
  restart_forgets s t h asked run active =
      let (ok, busy, previous) = started s t asked h run in
      rw ok.positive (
        set_scale_z_lem laws _ t.imu.gyro_scale.z ok.positive
        ∙ active_unit t.yaw_cal.state t.imu t.yaw_cal ok.held active)
