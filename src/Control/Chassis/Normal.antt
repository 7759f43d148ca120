-- ===== src/Control/Chassis/Normal.antt =====
-- The configuration that `Control_Chassis_Init` works with.
use nuedc_control_car_freert.Prelude.{
  ℕ, ◌<◌, ◌≤◌, ◌≡◌, refl, sym, ◌∙◌, true, false, Bool-cases, inl, inr, arith, ◌==◌,
}
use nuedc_control_car_freert.Float.{Float, IsFloat, ◌≺◌, ◌≼◌, lit, zero_f}
use nuedc_control_car_freert.Control.Chassis.{ChassisConfig, normalize_config, positive_or}

-- no value that the controller divides by or limits with is zero or negative
pub record IsNormal {F : Type 0} ⦃f : Float F⦄ (c : ChassisConfig F) : Type 0 where
  pub left_pulses_per_cm : c.left_pulses_per_cm ≼ zero_f ≡ false
  pub right_pulses_per_cm : c.right_pulses_per_cm ≼ zero_f ≡ false
  pub wheel_base_cm : c.wheel_base_cm ≼ zero_f ≡ false
  pub open_loop_cm_per_pwm_ms : c.open_loop_cm_per_pwm_ms ≼ zero_f ≡ false
  pub speed_out_limit : c.speed_out_limit ≼ zero_f ≡ false
  pub speed_correction_limit : c.speed_correction_limit ≼ zero_f ≡ false
  pub forward_min_pulse : c.forward_min_pulse ≺ zero_f ≡ false
  pub feedforward_left_slope : c.feedforward_left_slope ≼ zero_f ≡ false
  pub feedforward_left_offset : c.feedforward_left_offset ≼ zero_f ≡ false
  pub feedforward_right_slope : c.feedforward_right_slope ≼ zero_f ≡ false
  pub feedforward_right_offset : c.feedforward_right_offset ≼ zero_f ≡ false
  pub integral_delay_ms : c.integral_delay_ms == 0 ≡ false

module _ {F : Type 0} ⦃f : Float F⦄ ⦃laws : IsFloat F⦄ where
  default_pos : (m k : ℕ) (x : F) → 0 < m → k ≤ 20 → positive_or (lit m k) x ≼ zero_f ≡ false
  default_pos m k x p q = elim (Bool-cases (x ≼ zero_f)) [
    | inl e ↦ rw e (laws.lt-not-le _ _ (laws.lit_pos m k p q))
    | inr e ↦ rw e e
  ]

  pos_nonneg : (x : F) → zero_f ≺ x ≡ true → x ≺ zero_f ≡ false
  pos_nonneg x h = elim (Bool-cases (x ≺ zero_f)) [
    | inl e ↦ e ∙ sym (laws.lt_trans _ _ _ e h) ∙ laws.lt_irrefl x
    | inr e ↦ e
  ]

  -- Whatever configuration it is given, normalisation leaves every divisor, slope, offset and limit
  -- not below or equal to zero, the smallest target not negative and the integral delay not zero.
  pub normalize_config-IsNormal : (c : ChassisConfig F) → IsNormal (normalize_config c)
  unfolding normalize_config
  normalize_config-IsNormal c = record {
    left_pulses_per_cm = default_pos 7344 2 _ (omega arith) (omega arith);
    right_pulses_per_cm = default_pos 7314 2 _ (omega arith) (omega arith);
    wheel_base_cm = default_pos 135 1 _ (omega arith) (omega arith);
    open_loop_cm_per_pwm_ms = default_pos 22 5 _ (omega arith) (omega arith);
    speed_out_limit = default_pos 500 0 _ (omega arith) (omega arith);
    speed_correction_limit = default_pos 120 0 _ (omega arith) (omega arith);
    forward_min_pulse = elim (Bool-cases (c.forward_min_pulse ≺ zero_f)) [
      | inl e ↦ rw e (pos_nonneg _ (laws.lit_pos 3 2 (omega arith) (omega arith)))
      | inr e ↦ rw e e
    ];
    feedforward_left_slope = default_pos 69114 6 _ (omega arith) (omega arith);
    feedforward_left_offset = default_pos 5751407 6 _ (omega arith) (omega arith);
    feedforward_right_slope = default_pos 68201 6 _ (omega arith) (omega arith);
    feedforward_right_offset = default_pos 5486958 6 _ (omega arith) (omega arith);
    integral_delay_ms = ground arith;
  }

module _ {F : Type 0} ⦃f : Float F⦄ where
  -- A configuration whose values are all in range passes normalisation unchanged.
  pub normalize_config_id : (c : ChassisConfig F) → IsNormal c → normalize_config c ≡ c
  unfolding normalize_config
  normalize_config_id c n =
      rw
        (
          n.left_pulses_per_cm, n.right_pulses_per_cm, n.wheel_base_cm, n.open_loop_cm_per_pwm_ms,
          n.speed_out_limit, n.speed_correction_limit, n.forward_min_pulse,
          n.feedforward_left_slope, n.feedforward_left_offset, n.feedforward_right_slope,
          n.feedforward_right_offset, n.integral_delay_ms,
        )
        refl
