-- ===== src/Imu/Calibration.antt =====
-- modules/imu/imu_service.c: the calibration of the yaw scale, by four laps in each direction, and the
-- requests that start and cancel it.
pub mod Scale
pub mod Steps
use nuedc_control_car_freert.Prelude.{
  ℕ, ◌+◌, Bool, true, false, ◌&&◌, ◌||◌, not, leb, if◌then◌else◌,
}
use nuedc_control_car_freert.Prelude.Words.{u16}
use nuedc_control_car_freert.Float.{Float, ◌⊕◌, ◌⊖◌, ◌⊗◌, ◌⊘◌, ◌≺◌, ◌≼◌, lit, zero_f, neg}
use nuedc_control_car_freert.Imu.State.{Axes, Device, one, reset_attitude}
use nuedc_control_car_freert.Imu.Setters.{set_gyro_scale, reset_sample_low_pass}

-- `ImuYawCalState_t`
pub data YawCalState : Type 0 where
  idle wait_still wait_positive positive_active wait_negative negative_active complete failed :
      YawCalState

-- `YawCalibration_t`
pub record YawCalibration (F : Type 0) : Type 0 where
  pub state : YawCalState
  pub settle_samples : ℕ
  pub phase_origin_deg : F
  pub positive_measured_deg : F
  pub negative_measured_deg : F
  pub positive_scale : F
  pub negative_scale : F
  pub result_scale : F
  pub previous_scale : F

-- `s_imu`, `s_yaw_cal` and the two requests
pub record Service (F : Type 0) : Type 0 where
  pub imu : Device F
  pub yaw_cal : YawCalibration F
  pub start_requested : Bool
  pub cancel_requested : Bool

-- YAW_CAL_SETTLE_SAMPLES
abbrev pub settle_needed : ℕ
settle_needed = 40

-- the states from which a cancel puts the scale back
abbrev pub is_open : YawCalState → Bool
is_open idle = false
is_open complete = false
is_open wait_still = true
is_open wait_positive = true
is_open positive_active = true
is_open wait_negative = true
is_open negative_active = true
is_open failed = true

module _ {F : Type 0} ⦃f : Float F⦄ where
  -- YAW_CAL_FOUR_LAP_DEG, YAW_CAL_MOTION_START_DPS and YAW_CAL_CAPTURE_MIN_RATIO
  abbrev pub four_laps : F
  four_laps = lit 1440 0

  abbrev pub motion_start : F
  motion_start = lit 5 0

  abbrev pub least_turn : F
  least_turn = four_laps ⊗ lit 9 1

  unfoldable pub abs_float : F → F
  abs_float value = if value ≺ zero_f then neg value else value

  -- from YAW_CAL_SCALE_MIN to YAW_CAL_SCALE_MAX
  unfoldable pub scale_is_valid : F → Bool
  scale_is_valid scale = lit 85 2 ≼ scale && scale ≼ lit 115 2

  -- memset(&s_yaw_cal, 0, sizeof(s_yaw_cal))
  abbrev pub cleared : YawCalibration F
  cleared = record {
    state = idle;
    settle_samples = 0;
    phase_origin_deg = zero_f;
    positive_measured_deg = zero_f;
    negative_measured_deg = zero_f;
    positive_scale = zero_f;
    negative_scale = zero_f;
    result_scale = zero_f;
    previous_scale = zero_f;
  }

  -- ICM45688_MSPM0_SetGyroScale with the scales of the other axes
  unfoldable pub set_scale_z : Device F → F → Device F
  set_scale_z d scale = set_gyro_scale d d.gyro_scale.x d.gyro_scale.y scale

  unfoldable pub fail_yaw_calibration : Device F → YawCalibration F → Device F × YawCalibration F
  fail_yaw_calibration d c = (
    reset_attitude (set_scale_z d c.previous_scale),
    record c { state = failed; result_scale = c.previous_scale },
  )

  unfoldable pub start_yaw_calibration : Device F → Device F × YawCalibration F
  start_yaw_calibration d = (
    reset_attitude (reset_sample_low_pass (set_scale_z d one)),
    record cleared { state = wait_still; result_scale = one; previous_scale = d.gyro_scale.z },
  )

  -- the two scales are valid and differ by at most YAW_CAL_DIRECTION_MISMATCH_MAX of their mean
  unfoldable pub scales_agree : YawCalibration F → Bool
  scales_agree c =
      let sum = c.positive_scale ⊕ c.negative_scale in
      let difference = abs_float (c.positive_scale ⊖ c.negative_scale) in
      not (
        not (scale_is_valid c.positive_scale)
        || not (scale_is_valid c.negative_scale)
        || sum ≼ zero_f
        || lit 2 2 ≺ (lit 2 0 ⊗ difference) ⊘ sum)

  -- the scale that makes both turns four laps
  abbrev pub joint_scale : YawCalibration F → F
  joint_scale c = (lit 2 0 ⊗ four_laps) ⊘ (c.positive_measured_deg ⊖ c.negative_measured_deg)

  unfoldable pub complete_yaw_calibration :
      Device F → YawCalibration F → Device F × YawCalibration F
  complete_yaw_calibration d c =
      let result = joint_scale c in
      let measured = record c { result_scale = result } in
      if not (scales_agree c)
      then fail_yaw_calibration d c
      else if not (scale_is_valid result)
      then fail_yaw_calibration d measured
      else (
        reset_attitude (set_scale_z d result),
        record measured { phase_origin_deg = zero_f; state = complete },
      )

  -- the count of samples at rest after one more
  abbrev pub settle : YawCalibration F → ℕ
  settle c = u16 (c.settle_samples + 1)

  -- phase_yaw_deg
  abbrev pub phase_yaw : Device F → YawCalibration F → F
  phase_yaw d c = d.attitude.yaw_deg ⊖ c.phase_origin_deg

  -- at the end of the turn to the left
  unfoldable pub capture_positive : Device F → YawCalibration F → Device F × YawCalibration F
  capture_positive d c =
      let turned = phase_yaw d c in
      let scale = four_laps ⊘ turned in
      let measured = record c {
        settle_samples = settle c;
        positive_measured_deg = turned;
        positive_scale = scale;
      } in
      if not (scale_is_valid scale) then fail_yaw_calibration d measured else (
        d,
        record measured {
          phase_origin_deg = d.attitude.yaw_deg;
          settle_samples = 0;
          state = wait_negative;
        },
      )

  -- at the end of the turn to the right
  unfoldable pub capture_negative : Device F → YawCalibration F → Device F × YawCalibration F
  capture_negative d c =
      let turned = phase_yaw d c in
      complete_yaw_calibration d (record c {
        settle_samples = settle c;
        negative_measured_deg = turned;
        negative_scale = neg four_laps ⊘ turned;
      })

  -- a turn is captured once the handle has been at rest beyond its end for long enough
  abbrev pub settled :
      Device F → YawCalibration F → Bool → Device F × YawCalibration F → Device F × YawCalibration F
  settled d c resting captured =
      if resting
      then if leb settle_needed (settle c)
        then captured
        else (d, record c { settle_samples = settle c })
      else (d, record c { settle_samples = 0 })

  -- the branches of `update_yaw_calibration`, by the state
  unfoldable pub update_in : YawCalState → Device F → YawCalibration F → Device F × YawCalibration F
  update_in wait_still d c = settled d c d.stationary (
    reset_attitude d,
    record c { phase_origin_deg = zero_f; settle_samples = 0; state = wait_positive },
  )
  update_in wait_positive d c =
      (d, if motion_start ≼ d.gyro_dps.z then record c { state = positive_active } else c)
  update_in positive_active d c =
      settled d c (d.stationary && least_turn ≼ phase_yaw d c) (capture_positive d c)
  update_in wait_negative d c =
      (d, if d.gyro_dps.z ≼ neg motion_start then record c { state = negative_active } else c)
  update_in negative_active d c =
      settled d c (d.stationary && phase_yaw d c ≼ neg least_turn) (capture_negative d c)
  update_in idle d c = (d, c)
  update_in complete d c = (d, c)
  update_in failed d c = (d, c)

  unfoldable pub update_yaw_calibration : Service F → Service F
  update_yaw_calibration s =
      let (imu, yaw_cal) = update_in s.yaw_cal.state s.imu s.yaw_cal in
      record s { imu = imu; yaw_cal = yaw_cal }

  unfoldable pub serve_cancel : Service F → Service F
  serve_cancel s =
      let restored =
        if is_open s.yaw_cal.state && zero_f ≺ s.yaw_cal.previous_scale
        then set_scale_z s.imu s.yaw_cal.previous_scale
        else s.imu in
      if s.cancel_requested
      then record s { cancel_requested = false; yaw_cal = cleared; imu = reset_attitude restored }
      else s

  unfoldable pub serve_start : Service F → Service F
  serve_start s =
      let (imu, yaw_cal) = start_yaw_calibration s.imu in
      if s.start_requested
      then record s { start_requested = false; imu = imu; yaw_cal = yaw_cal }
      else s

  unfoldable pub service_yaw_requests : Service F → Service F
  service_yaw_requests s = serve_start (serve_cancel s)

  -- IMU_RequestYawCalibration and IMU_CancelYawCalibration
  unfoldable pub request_yaw_calibration : Service F → Service F
  request_yaw_calibration s = record s { start_requested = true }

  unfoldable pub cancel_yaw_calibration : Service F → Service F
  cancel_yaw_calibration s = record s { cancel_requested = true }
