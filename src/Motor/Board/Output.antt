-- ===== src/Motor/Board/Output.antt =====
-- From `BSP_Motor_SetDuty` down to the pins: what the board commands of a motor's bridge.
use Prim.Native.Nat.{min}
use mathlib.Core.Path.{subst}
use nuedc_control_car_freert.Prelude.{
  sym, List, ℕ, ◌≤◌, ◌≡◌, ◌∙◌, false, arith, ltb, if◌then◌else◌, Bool-cases, inl, inr,
}
use nuedc_control_car_freert.Prelude.Int.{ℤ, pos, negsuc, clamp_ℤ, nat_abs, pos_part}
use nuedc_control_car_freert.Platform.{Call}
use nuedc_control_car_freert.Platform.HBridge
use nuedc_control_car_freert.Platform.HBridge.{HBridgeMotor, is_zero}
use nuedc_control_car_freert.Platform.HBridge.Spin.{
  IsWired, Commands, raises1, raises2, coast-Commands, zero_lem, set_signed_duty-Commands,
}
use nuedc_control_car_freert.Platform.Pwm.{on_ticks, on_ticks_lem, clamp_u32}
use nuedc_control_car_freert.Motor.Device
use nuedc_control_car_freert.Motor.Device.{
  DevMotor, clamp_signed_board, clamp_ℤ_thousand, clamp_ℤ_idem,
}
use nuedc_control_car_freert.Motor.Board.{
  MotorBoard, MotorPins, motor_config, forward_only, is_left, set_duty, set_signed_duty,
}
use nuedc_control_car_freert.Motor.Board.Bounds.{IsLimited, cut}

-- the calls drive the bridge at this duty
abbrev Drives : HBridgeMotor → List Call → ℤ → Type 0
Drives out calls c = Commands out calls (raises1 out c) (raises2 out c) (min (nat_abs c) 1000)

device-Commands :
    (m : DevMotor) (d : ℤ)
    → IsLimited m
    → IsWired m.config.output
    → Drives m.config.output (Device.set_signed_duty m d).1 (clamp_ℤ (negsuc 999) (pos 1000) d)
unfolding Device.set_signed_duty
device-Commands m d h w =
    rw (clamp_signed_board m d h.limit) (by_zero (clamp_ℤ (negsuc 999) (pos 1000) d))
  where
    by_zero :
        (c : ℤ)
        → Drives m.config.output
            (if is_zero c
              then HBridge.coast m.config.output
              else HBridge.set_signed_duty m.config.output c)
            c
    by_zero c = elim (Bool-cases (is_zero c)) [
      | inl z ↦
          let (off1, off2, none_left) = zero_lem m.config.output c z in
          rw (z, off1, off2, none_left) (coast-Commands m.config.output w)
      | inr z ↦ rw z (set_signed_duty-Commands m.config.output c w)
    ]

-- the motor that a channel names
abbrev pub motor_at : MotorBoard → ℕ → DevMotor
motor_at b ch = if is_left ch then b.left else b.right

board_calls :
    (now : ℕ) (b : MotorBoard) (ch : ℕ) (d : ℤ)
    → (set_duty now b ch d).1
      ≡ (Device.set_signed_duty
          (motor_at b ch)
          (clamp_ℤ (negsuc 999) (pos 1000) (forward_only d))).1
unfolding set_duty set_signed_duty
board_calls now b ch d = elim (Bool-cases (is_left ch)) [ inl e ↦ rw e | inr e ↦ rw e ]

forward_raises :
    (p : MotorPins) (k : ℕ)
    → k ≤ 1000
    → let out = (motor_config p).output in
      (raises1 out (pos k) ≡ ltb 0 k)
      × (raises2 out (pos k) ≡ false)
      × (min (nat_abs (pos k)) 1000 ≡ k)
forward_raises p k h = ground arith

full_period : (p : MotorPins) (k : ℕ) → k ≤ 1000 → on_ticks (motor_config p).output.pwm k ≡ k
unfolding clamp_u32
full_period p k h = (on_ticks_lem (motor_config p).output.pwm k (omega arith)).0 ∙ ground arith

motor-Commands :
    (m : DevMotor) (d : ℤ) (p : MotorPins)
    → IsLimited m
    → m.config.output ≡ (motor_config p).output
    → IsWired (motor_config p).output
    → let c = min (pos_part d) 1000 in
      Commands
        (motor_config p).output
        (Device.set_signed_duty m (clamp_ℤ (negsuc 999) (pos 1000) (forward_only d))).1
        (ltb 0 c)
        false
        c
motor-Commands m d p h e w =
    let k = min (pos_part d) 1000 in
    let (up, down, size) = forward_raises p k (omega arith) in
    subst (λ n. Commands (motor_config p).output calls (ltb 0 k) false n) size
      (subst (λ r. Commands (motor_config p).output calls (ltb 0 k) r (min (nat_abs (pos k)) 1000))
        down
        (subst
          (λ r.
            Commands (motor_config p).output calls r (raises2 (motor_config p).output (pos k))
              (min (nat_abs (pos k)) 1000))
          up by_sign))
  where
    calls : List Call
    calls = (Device.set_signed_duty m (clamp_ℤ (negsuc 999) (pos 1000) (forward_only d))).1

    by_sign : Drives (motor_config p).output calls (pos (min (pos_part d) 1000))
    by_sign =
        subst (λ c. Drives (motor_config p).output calls c) (cut d)
          (subst (λ out. Drives out calls twice_cut) e
            (device-Commands m (clamp_ℤ (negsuc 999) (pos 1000) (forward_only d)) h
              (subst IsWired (sym e) w)))
      where
        twice_cut : ℤ
        twice_cut =
            clamp_ℤ (negsuc 999) (pos 1000) (clamp_ℤ (negsuc 999) (pos 1000) (forward_only d))

-- On a bridge wired as the board's configuration says, a speed command `d` commands the PWM to be
-- active for exactly `c` of its 1000 ticks, `c` being `d` cut to the range from 0 to 1000; it raises
-- the first direction pin if and only if `c` is not 0, and never the second.
pub set_duty_drives :
    (now : ℕ) (b : MotorBoard) (ch : ℕ) (d : ℤ) (p : MotorPins)
    → IsLimited (motor_at b ch)
    → (motor_at b ch).config.output ≡ (motor_config p).output
    → IsWired (motor_config p).output
    → let c = min (pos_part d) 1000 in
      let out = (motor_config p).output in
      Commands out (set_duty now b ch d).1 (ltb 0 c) false c × (on_ticks out.pwm c ≡ c)
set_duty_drives now b ch d p h e w = (
  subst (λ calls. Commands (motor_config p).output calls (ltb 0 k) false k)
      (sym (board_calls now b ch d)) (motor-Commands (motor_at b ch) d p h e w),
  full_period p k (omega arith),
)
  where
    k : ℕ
    k = min (pos_part d) 1000
