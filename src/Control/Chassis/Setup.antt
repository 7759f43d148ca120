-- ===== src/Control/Chassis/Setup.antt =====
-- control/chassis.c: the initialisation, the setters and the debug duty.
use nuedc_control_car_freert.Prelude.{ℕ, ◌+◌, true, false, Option, none, some, if◌then◌else◌, ◌==◌}
use nuedc_control_car_freert.Prelude.Int.{ℤ, pos}
use nuedc_control_car_freert.Prelude.Words.{u32}
use nuedc_control_car_freert.Platform.{Reader}
use nuedc_control_car_freert.Encoder
use nuedc_control_car_freert.Encoder.{Encoders, EncoderPins}
use nuedc_control_car_freert.Control.Pid
use nuedc_control_car_freert.Control.Chassis.{Chassis, ChassisConfig, Pose, normalize_config}
use nuedc_control_car_freert.Float.{Float, zero_f, neg}

module _ {F : Type 0} ⦃f : Float F⦄ where
  -- memset(&cfg, 0, sizeof(cfg))
  abbrev pub zero_config : ChassisConfig F
  zero_config = record {
    left_pulses_per_cm = zero_f;
    right_pulses_per_cm = zero_f;
    wheel_base_cm = zero_f;
    open_loop_cm_per_pwm_ms = zero_f;
    speed_out_limit = zero_f;
    speed_correction_limit = zero_f;
    forward_min_pulse = zero_f;
    feedforward_left_slope = zero_f;
    feedforward_left_offset = zero_f;
    feedforward_right_slope = zero_f;
    feedforward_right_offset = zero_f;
    integral_delay_ms = 0;
  }

  abbrev pub zero_pose : Pose F
  zero_pose = record { x = zero_f; y = zero_f; theta = zero_f }

  -- `none` is the null configuration; `BSP_Encoder_Init` is `Encoder.init`.
  unfoldable pub init : Option (ChassisConfig F) → F → F → F → Chassis F
  init config kp ki kd =
      let given : ChassisConfig F = elim config [ none ↦ zero_config | some c ↦ c ] in
      let cfg = normalize_config given in
      let pid = Pid.init kp ki kd (neg cfg.speed_correction_limit) cfg.speed_correction_limit in
      record {
        config = cfg;
        pid_left = pid;
        pid_right = pid;
        pose = zero_pose;
        target_speed_left = zero_f;
        target_speed_right = zero_f;
        measured_speed_left = zero_f;
        measured_speed_right = zero_f;
        segment_dist_cm = zero_f;
        dead_zone_left = zero_f;
        dead_zone_right = zero_f;
        speed_control_active = false;
        speed_control_started_ms = 0;
        debug_pwm_active = false;
        debug_pwm_left = pos 0;
        debug_pwm_right = pos 0;
        debug_pwm_deadline_ms = 0;
      }

  unfoldable pub reset_odometry :
      Reader → EncoderPins → EncoderPins → Encoders → Chassis F → Pose F → Chassis F × Encoders
  reset_odometry reader l r e c pose =
      let left_reset = Encoder.reset reader l r e 0 in
      (record c { pose = pose; segment_dist_cm = zero_f }, Encoder.reset reader l r left_reset 1)

  unfoldable pub reset_segment_distance : Chassis F → Chassis F
  reset_segment_distance c = record c { segment_dist_cm = zero_f }

  unfoldable pub set_target_speeds : Chassis F → F → F → Chassis F
  set_target_speeds c left right = record c { target_speed_left = left; target_speed_right = right }

  unfoldable pub set_dead_zone : Chassis F → F → F → Chassis F
  set_dead_zone c left right = record c { dead_zone_left = left; dead_zone_right = right }

  unfoldable pub set_debug_duty : Chassis F → ℤ → ℤ → ℕ → ℕ → Chassis F
  set_debug_duty c left_pwm right_pwm now_ms hold_ms = record c {
    debug_pwm_active = true;
    debug_pwm_left = left_pwm;
    debug_pwm_right = right_pwm;
    debug_pwm_deadline_ms = u32 (now_ms + (if hold_ms == 0 then 800 else hold_ms));
  }

  unfoldable pub clear_debug_duty : Chassis F → Chassis F
  clear_debug_duty c = record c {
    debug_pwm_active = false;
    debug_pwm_left = pos 0;
    debug_pwm_right = pos 0;
    debug_pwm_deadline_ms = 0;
  }
