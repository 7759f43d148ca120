-- ===== src/Control/Chassis/Tuning.antt =====
-- What no operation of control/chassis.c changes: the configuration, the gains and the limits.
use nuedc_control_car_freert.Prelude.{
  ℕ, ◌≡◌, refl, ◌∙◌, Bool, true, false, some, Bool-cases, inl, inr, leb, AllSome, all_and_then,
  all_any, of_some,
}
use nuedc_control_car_freert.Prelude.Int.{ℤ}
use nuedc_control_car_freert.Platform.{Reader}
use nuedc_control_car_freert.Encoder.{Encoders, EncoderPins}
use nuedc_control_car_freert.Control.Pid
use nuedc_control_car_freert.Control.Pid.{Pid}
use nuedc_control_car_freert.Control.Chassis.{
  Chassis, Pose, update_speed_pid, integrate_odometry, wrap_pi,
}
use nuedc_control_car_freert.Control.Chassis.Setup.{
  set_target_speeds, set_dead_zone, set_debug_duty, clear_debug_duty, reset_odometry,
  reset_segment_distance,
}
use nuedc_control_car_freert.Control.Chassis.Drive.{
  measure, command, control, correct, activate, deactivate,
}
use nuedc_control_car_freert.Float.{Float, ◌≺◌, zero_f}

-- the gains and the output limits of a controller
abbrev pub tuning : {F : Type 0} → Pid F → F × F × F × F × F
tuning p = (p.kp, p.ki, p.kd, p.out_min, p.out_max)

pub record IsSameTuning {F : Type 0} (a b : Chassis F) : Type 0 where
  pub config : a.config ≡ b.config
  pub left : tuning a.pid_left ≡ tuning b.pid_left
  pub right : tuning a.pid_right ≡ tuning b.pid_right

module _ {F : Type 0} ⦃f : Float F⦄ where
  correct-tuning :
      (p : Pid F) (ff target measured : F) (allow : Bool)
      → tuning (correct p ff target measured allow).0 ≡ tuning p
  unfolding correct update_speed_pid Pid.update Pid.reset
  correct-tuning p ff target measured allow = elim (Bool-cases (zero_f ≺ ff)) [
    | inl on ↦ elim (Bool-cases allow) [
      | inl free ↦ rw (on, free) refl
      | inr held ↦ rw (on, held) refl
    ]
    | inr off ↦ rw off refl
  ]

  activate-IsSameTuning : (c : Chassis F) (now : ℕ) → IsSameTuning (activate c now) c
  unfolding activate Pid.reset
  activate-IsSameTuning c now = elim (Bool-cases c.speed_control_active) [
    | inl on ↦ rw on (record { config = refl; left = refl; right = refl })
    | inr off ↦ rw off (record { config = refl; left = refl; right = refl })
  ]

  control-IsSameTuning : (c : Chassis F) (now : ℕ) → IsSameTuning (control c now).0 c
  unfolding control
  control-IsSameTuning c now =
      let a = activate-IsSameTuning c now in
      record {
        config = a.config;
        left = correct-tuning (activate c now).pid_left _ _ _ _ ∙ a.left;
        right = correct-tuning (activate c now).pid_right _ _ _ _ ∙ a.right;
      }

  command-IsSameTuning :
      (c : Chassis F) (run : Bool) (now : ℕ) → IsSameTuning (command c run now).0 c
  unfolding command deactivate clear_debug_duty Pid.reset
  command-IsSameTuning c true now = control-IsSameTuning c now
  command-IsSameTuning c false now = elim (Bool-cases c.debug_pwm_active) [
    | inl on ↦ elim (Bool-cases (leb c.debug_pwm_deadline_ms now)) [
      | inl over ↦ rw (on, over) (record { config = refl; left = refl; right = refl })
      | inr held ↦ rw (on, held) (record { config = refl; left = refl; right = refl })
    ]
    | inr off ↦ rw off (record { config = refl; left = refl; right = refl })
  ]

  measure-IsSameTuning :
      (fuel : ℕ) (c : Chassis F) (e : Encoders)
      → AllSome (λ m. IsSameTuning m c) (measure fuel c e).0
  unfolding measure integrate_odometry
  measure-IsSameTuning fuel c e =
      all_and_then (λ m. IsSameTuning m c) _ _ _
        (all_and_then (λ theta. Unit) _ (wrap_pi fuel _) _ (all_any _)
          (λ theta any. record { config = refl; left = refl; right = refl }))
        (λ m same. record { config = same.config; left = same.left; right = same.right })

  -- one operation on the chassis
  pub data Step : Chassis F → Chassis F → Type 0 where
    ticked :
        {c : Chassis F} (fuel : ℕ) (m : Chassis F) (e : Encoders) (run : Bool) (now : ℕ)
        → (measure fuel c e).0 ≡ some m
        → Step c (command m run now).0
    moved :
        {c : Chassis F} (reader : Reader) (l r : EncoderPins) (e : Encoders) (pose : Pose F)
        → Step c (reset_odometry reader l r e c pose).0
    segment : {c : Chassis F} → Step c (reset_segment_distance c)
    aimed : {c : Chassis F} (left right : F) → Step c (set_target_speeds c left right)
    widened : {c : Chassis F} (left right : F) → Step c (set_dead_zone c left right)
    debugged : {c : Chassis F} (l r : ℤ) (now hold : ℕ) → Step c (set_debug_duty c l r now hold)
    cleared : {c : Chassis F} → Step c (clear_debug_duty c)

  pub data Reach : Chassis F → Chassis F → Type 0 where
    done : {c : Chassis F} → Reach c c
    more : {a b c : Chassis F} → Step a b → Reach b c → Reach a c

  step-IsSameTuning : {a b : Chassis F} → Step a b → IsSameTuning b a
  unfolding reset_odometry reset_segment_distance set_target_speeds set_dead_zone set_debug_duty
      clear_debug_duty
  step-IsSameTuning {a = a} (ticked fuel m e run now h) =
      let before = of_some (λ m. IsSameTuning m a) _ m (measure-IsSameTuning fuel a e) h in
      let after = command-IsSameTuning m run now in
      record {
        config = after.config ∙ before.config;
        left = after.left ∙ before.left;
        right = after.right ∙ before.right;
      }
  step-IsSameTuning (moved reader l r e pose) = record { config = refl; left = refl; right = refl }
  step-IsSameTuning segment = record { config = refl; left = refl; right = refl }
  step-IsSameTuning (aimed left right) = record { config = refl; left = refl; right = refl }
  step-IsSameTuning (widened left right) = record { config = refl; left = refl; right = refl }
  step-IsSameTuning (debugged l r now hold) = record { config = refl; left = refl; right = refl }
  step-IsSameTuning cleared = record { config = refl; left = refl; right = refl }

  -- Over every sequence of ticks and of other operations, the configuration, the gains and the
  -- output limits of both controllers stay as they are: a tick that withholds the integral sets its
  -- gain to zero only for the time of the update.
  pub tuning_kept : {a b : Chassis F} → Reach a b → IsSameTuning b a
  tuning_kept done = record { config = refl; left = refl; right = refl }
  tuning_kept (more s rest) =
      let first = step-IsSameTuning s in
      let others = tuning_kept rest in
      record {
        config = others.config ∙ first.config;
        left = others.left ∙ first.left;
        right = others.right ∙ first.right;
      }
