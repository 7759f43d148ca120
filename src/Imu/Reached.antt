-- ===== src/Imu/Reached.antt =====
-- The handles that the functions of modules/imu/device/dev_icm45688.c lead to, in any order.
use nuedc_control_car_freert.Prelude.{ℕ, ◌≡◌, refl, Bool, some, of_some, arith}
use nuedc_control_car_freert.Float.{Float, IsFloat}
use nuedc_control_car_freert.Imu.State.{AttitudeMode, Device, init_handle, reset_attitude}
use nuedc_control_car_freert.Imu.Setters.{
  set_filter, set_sample_low_pass, reset_sample_low_pass, set_attitude_mode, set_accel_trust_window,
  set_accel_rejection, set_mahony_gains, set_gyro_bias, set_gyro_scale, set_stationary_detection,
  set_gyro_bias_auto_update,
}
use nuedc_control_car_freert.Imu.Driver.{Vendor, read_who_am_i, begin, update}
use nuedc_control_car_freert.Imu.Valid.{
  IsValid, init_handle-IsValid, keeps_IsValid, set_gyro_scale-IsValid,
  set_stationary_detection-IsValid, read_who_am_i-IsValid, begin-IsValid, update-IsValid,
}

module _ {F : Type 0} ⦃f : Float F⦄ {V : Type 0} (vendor : Vendor V) where
  -- one call of a function of the file, at any arguments and any state of the chip
  pub data Call (d : Device F) : Device F → Type 0 where
    filtered : (dt_s alpha : F) → Call d (set_filter d dt_s alpha)
    low_passed : (accel gyro : F) → Call d (set_sample_low_pass d accel gyro)
    low_pass_reset : Call d (reset_sample_low_pass d)
    mode_set : (mode : AttitudeMode) → Call d (set_attitude_mode d mode)
    trust_set : (window : F) → Call d (set_accel_trust_window d window)
    rejection_set : (angle_deg : F) → Call d (set_accel_rejection d angle_deg)
    gains_set : (kp ki : F) → Call d (set_mahony_gains d kp ki)
    attitude_reset : Call d (reset_attitude d)
    bias_set : (x y z : F) → Call d (set_gyro_bias d x y z)
    scale_set : (x y z : F) → Call d (set_gyro_scale d x y z)
    detection_set :
        (gyro accel : F) (hold : ℕ) → Call d (set_stationary_detection d gyro accel hold)
    learning_set : (enable : Bool) (rate : F) → Call d (set_gyro_bias_auto_update d enable rate)
    identified : (v : V) → Call d (read_who_am_i vendor v d).1
    begun : (v : V) → Call d (begin vendor v d).1
    updated :
        (fuel : ℕ) (v : V) (o : V × Device F × ℕ) → update vendor fuel v d ≡ some o → Call d o.1

  -- any number of calls from the initial handle on
  pub data IsReached : Device F → Type 0 where
    initial : (bus : Bool) → IsReached (init_handle bus)
    called : {d e : Device F} → IsReached d → Call d e → IsReached e

  call-IsValid : {d e : Device F} → Call d e → IsValid d → IsValid e
  unfolding set_filter set_sample_low_pass reset_sample_low_pass set_attitude_mode
      set_accel_trust_window set_accel_rejection set_mahony_gains set_gyro_bias
      set_gyro_bias_auto_update reset_attitude
  call-IsValid {d = d} (filtered dt_s alpha) h =
      keeps_IsValid d _ h refl refl h.learned refl refl refl refl
  call-IsValid {d = d} (low_passed accel gyro) h =
      keeps_IsValid d _ h refl refl h.learned refl refl refl refl
  call-IsValid {d = d} low_pass_reset h =
      keeps_IsValid d _ h refl refl h.learned refl refl refl refl
  call-IsValid {d = d} (mode_set mode) h =
      keeps_IsValid d _ h refl refl h.learned refl refl refl refl
  call-IsValid {d = d} (trust_set window) h =
      keeps_IsValid d _ h refl refl h.learned refl refl refl refl
  call-IsValid {d = d} (rejection_set angle_deg) h =
      keeps_IsValid d _ h refl refl h.learned refl refl refl refl
  call-IsValid {d = d} (gains_set kp ki) h =
      keeps_IsValid d _ h refl refl h.learned refl refl refl refl
  call-IsValid {d = d} attitude_reset h =
      keeps_IsValid d _ h refl refl h.learned refl refl refl refl
  call-IsValid {d = d} (bias_set x y z) h =
      keeps_IsValid d _ h refl refl (omega arith) refl refl refl refl
  call-IsValid {d = d} (scale_set x y z) h = set_gyro_scale-IsValid d x y z h
  call-IsValid {d = d} (detection_set gyro accel hold) h =
      set_stationary_detection-IsValid d gyro accel hold h
  call-IsValid {d = d} (learning_set enable rate) h =
      keeps_IsValid d _ h refl refl (omega arith) refl refl refl refl
  call-IsValid {d = d} (identified v) h = read_who_am_i-IsValid vendor v d h
  call-IsValid {d = d} (begun v) h = begin-IsValid vendor v d h
  call-IsValid {d = d} (updated fuel v o done) h =
      of_some (λ r. IsValid r.1) (update vendor fuel v d) o (update-IsValid vendor fuel v d h) done

  -- Whatever functions of the device are called from its initial handle on, in whatever order, with
  -- whatever arguments, and whatever the chip answers: the count of samples at rest is at most the
  -- number to hold, the flag of rest is set exactly when the count has reached that number, the count
  -- for the learning of the bias is at most 600, and the three scales and the threshold of the rates
  -- are positive and that of the acceleration is not negative.
  pub reached-IsValid : IsFloat F → {d : Device F} → IsReached d → IsValid d
  reached-IsValid laws (initial bus) = init_handle-IsValid laws bus
  reached-IsValid laws (called before call) = call-IsValid call (reached-IsValid laws before)
