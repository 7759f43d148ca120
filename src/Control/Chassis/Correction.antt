-- ===== src/Control/Chassis/Correction.antt =====
-- The part of the feedback in the commands of `Control_Chassis_Tick`.
use nuedc_control_car_freert.Prelude.{
  ℕ, ◌<◌, ◌≡◌, refl, ap, sym, ◌∙◌, Bool, true, false, Option, Bool-cases, inl, inr, leb, arith,
  some, none,
}
use mathlib.Core.Bool.{true≢false}
use mathlib.Core.Path.{subst}
use nuedc_control_car_freert.Prelude.Words.{sub32}
use nuedc_control_car_freert.Control.Pid
use nuedc_control_car_freert.Control.Pid.{Pid}
use nuedc_control_car_freert.Control.Pid.Bounds.{IsWithin, output_bounds}
use nuedc_control_car_freert.Control.Chassis.{Chassis, ChassisConfig, update_speed_pid}
use nuedc_control_car_freert.Control.Chassis.Setup.{init, zero_config}
use nuedc_control_car_freert.Control.Chassis.Drive.{correct, control, activate}
use nuedc_control_car_freert.Control.Chassis.Normal.{IsNormal, normalize_config-IsNormal}
use nuedc_control_car_freert.Control.Chassis.Tuning.{Reach, tuning_kept}
use nuedc_control_car_freert.Float.{Float, IsFloat, ◌≺◌, ◌≼◌, neg, zero_f}

module _ {F : Type 0} ⦃f : Float F⦄ where
  held_integral :
      (p : Pid F) (ff target measured : F)
      → (correct p ff target measured false).0.integral ≡ zero_f
  unfolding correct update_speed_pid Pid.update Pid.reset
  held_integral p ff target measured = elim (Bool-cases (zero_f ≺ ff)) [
    | inl on ↦ rw on refl
    | inr off ↦ rw off refl
  ]

  -- The integral is withheld at first: in a round of speed control that starts less than the
  -- integral delay ago, by the wrapping 32-bit clock, both integrals are zero afterwards.
  integral_delayed :
      (c : Chassis F) (now : ℕ)
      → let a = activate c now in
        sub32 now a.speed_control_started_ms < a.config.integral_delay_ms
        → ((control c now).0.pid_left.integral ≡ zero_f)
          × ((control c now).0.pid_right.integral ≡ zero_f)
  unfolding control
  integral_delayed c now early =
      let a = activate c now in
      let late : leb a.config.integral_delay_ms (sub32 now a.speed_control_started_ms) ≡ false =
        ground arith in
      rw late (held_integral a.pid_left _ _ _, held_integral a.pid_right _ _ _)

module _ {F : Type 0} ⦃f : Float F⦄ ⦃laws : IsFloat F⦄ where
  limit_ordered : (x : F) → x ≼ zero_f ≡ false → x ≺ neg x ≡ false
  limit_ordered x h = elim (Bool-cases (x ≺ zero_f)) [
    | inl e ↦ absurd (true≢false (sym (laws.lt-le x zero_f e) ∙ h))
    | inr e ↦ laws.neg_below x e
  ]

  update_speed_pid-bounds :
      (p : Pid F) (target measured : F) (allow : Bool)
      → p.out_max ≺ p.out_min ≡ false
      → IsWithin p.out_min p.out_max (update_speed_pid p target measured allow).1
  unfolding update_speed_pid
  update_speed_pid-bounds p target measured true h = output_bounds p target measured h
  update_speed_pid-bounds p target measured false h =
      output_bounds (record p { ki = zero_f }) target measured h

  init-config-IsNormal :
      (config : Option (ChassisConfig F)) (kp ki kd : F) → IsNormal (init config kp ki kd).config
  unfolding init
  init-config-IsNormal none kp ki kd = normalize_config-IsNormal zero_config
  init-config-IsNormal (some c) kp ki kd = normalize_config-IsNormal c

  limited :
      (p : Pid F) (limit target measured : F) (allow : Bool)
      → p.out_min ≡ neg limit
      → p.out_max ≡ limit
      → limit ≼ zero_f ≡ false
      → IsWithin (neg limit) limit (update_speed_pid p target measured allow).1
  limited p limit target measured allow low high normal =
      let ordered : p.out_max ≺ p.out_min ≡ false = rw (low, high) (limit_ordered limit normal) in
      let inside = update_speed_pid-bounds p target measured allow ordered in
      let output = (update_speed_pid p target measured allow).1 in
      (subst (λ h. h ≺ output ≡ false) high inside.0, subst (λ l. output ≺ l ≡ false) low inside.1)

  -- From initialisation on, with any configuration and gains and after any sequence of ticks and
  -- operations: the feedback on a wheel's speed, whatever its target and its measurement, is not
  -- above the configured correction limit and not below its negative.
  pub correction_bounds :
      (config : Option (ChassisConfig F)) (kp ki kd : F) (c : Chassis F) (target measured : F)
      (allow : Bool)
      → Reach (init config kp ki kd) c
      → let limit = c.config.speed_correction_limit in
        IsWithin (neg limit) limit (update_speed_pid c.pid_left target measured allow).1
        × IsWithin (neg limit) limit (update_speed_pid c.pid_right target measured allow).1
  unfolding init Pid.init
  correction_bounds config kp ki kd c target measured allow reach =
      let same = tuning_kept reach in
      let start = init config kp ki kd in
      let limit = c.config.speed_correction_limit in
      let config_limit = ap (λ g. g.speed_correction_limit) same.config in
      let normal : limit ≼ zero_f ≡ false =
        subst (λ l. l ≼ zero_f ≡ false) (sym config_limit)
          (init-config-IsNormal config kp ki kd).speed_correction_limit in
      (
        limited c.pid_left limit target measured allow
            (ap (λ t. t.3) same.left ∙ ap neg (sym config_limit))
            (ap (λ t. t.4) same.left ∙ sym config_limit) normal,
        limited c.pid_right limit target measured allow
            (ap (λ t. t.3) same.right ∙ ap neg (sym config_limit))
            (ap (λ t. t.4) same.right ∙ sym config_limit) normal,
      )
