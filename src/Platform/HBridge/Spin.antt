-- ===== src/Platform/HBridge/Spin.antt =====
-- What the H-bridge driver commands: the direction pins and the compare value.
use Prim.Native.Nat.{min}
use nuedc_control_car_freert.Prelude.{
  ℕ, ◌≤◌, Bool-cases, inl, inr, ◌≡◌, ◌≢◌, ◌⊎◌, Bool, true, false, List, none, some, arith,
  if◌then◌else◌,
}
use nuedc_control_car_freert.Prelude.Int.{ℤ, pos, negsuc, ltb_ℤ, neg_ℤ, nat_abs}
use nuedc_control_car_freert.Prelude.Words.{i16, i16_of_IsI16}
use nuedc_control_car_freert.Platform.{Call, level, compare_of}
use nuedc_control_car_freert.Platform.Gpio
use nuedc_control_car_freert.Platform.Pwm
use nuedc_control_car_freert.Platform.HBridge.{
  HBridgeMotor, is_zero, coast, brake, drive, clamp_duty, set_signed_duty,
}

-- The bridge is connected: real ports, two different pins, a real timer.
pub record IsWired (m : HBridgeMotor) : Type 0 where
  pub port1 : m.in1.port ≢ 0
  pub port2 : m.in2.port ≢ 0
  pub timer : m.pwm.timer ≢ 0
  pub apart : (m.in1.port ≢ m.in2.port) ⊎ (m.in1.pin ≢ m.in2.pin)

-- The calls leave the two direction pins at these levels, and the PWM at this duty.
pub record Commands (m : HBridgeMotor) (calls : List Call) (high1 high2 : Bool) (n : ℕ)
    : Type 0 where
  pub pin1 : level m.in1.port m.in1.pin calls none ≡ some high1
  pub pin2 : level m.in2.port m.in2.pin calls none ≡ some high2
  pub pwm : compare_of m.pwm.timer m.pwm.channel calls none ≡ some (Pwm.compare_value m.pwm n)

pub coast-Commands : (m : HBridgeMotor) → IsWired m → Commands m (coast m) false false 0
unfolding coast Gpio.write_raw Pwm.set_duty_permille
coast-Commands m w = ground arith

pub brake-Commands : (m : HBridgeMotor) → IsWired m → Commands m (brake m) true true 0
unfolding brake Gpio.write_raw Pwm.set_duty_permille
brake-Commands m w = ground arith

drive-Commands :
    (m : HBridgeMotor) (d : ℤ)
    → IsWired m
    → nat_abs d ≤ 1000
    → Commands m (drive m d) (if ltb_ℤ (pos 0) d then false else true) (ltb_ℤ (pos 0) d) (nat_abs d)
unfolding drive Gpio.write_raw Pwm.set_duty_permille
drive-Commands m (pos n) w h = ground arith
drive-Commands m (negsuc n) w h = ground arith

-- which of the two pins a duty of this sign raises on a bridge mounted either way round
abbrev pub raises1 : HBridgeMotor → ℤ → Bool
raises1 m d = if ltb_ℤ m.direction (pos 0) then ltb_ℤ (pos 0) d else ltb_ℤ d (pos 0)

abbrev pub raises2 : HBridgeMotor → ℤ → Bool
raises2 m d = if ltb_ℤ m.direction (pos 0) then ltb_ℤ d (pos 0) else ltb_ℤ (pos 0) d

-- the duty that `drive` is given
abbrev oriented : HBridgeMotor → ℤ → ℤ
oriented m d = if ltb_ℤ m.direction (pos 0) then neg_ℤ (clamp_duty d) else clamp_duty d

is_zero-clamp : (d : ℤ) → is_zero (clamp_duty d) ≡ is_zero d
unfolding clamp_duty
is_zero-clamp (pos n) = ground arith
is_zero-clamp (negsuc n) = ground arith

clamp_small : (d : ℤ) → nat_abs (clamp_duty d) ≤ 1000
unfolding clamp_duty
clamp_small (pos n) = ground arith
clamp_small (negsuc n) = ground arith

turned :
    (direction c : ℤ)
    → nat_abs c ≤ 1000
    → (if ltb_ℤ (if is_zero direction then pos 1 else direction) (pos 0) then i16 (neg_ℤ c) else c)
      ≡ (if ltb_ℤ direction (pos 0) then neg_ℤ c else c)
turned (pos n) c h = elim (Bool-cases (is_zero (pos n))) [
  | inl z ↦ rw z (ground arith)
  | inr z ↦ rw z (ground arith)
]
turned (negsuc n) (pos k) h = ground (arith, i16_of_IsI16 (neg_ℤ (pos k)))
turned (negsuc n) (negsuc k) h = ground (arith, i16_of_IsI16 (neg_ℤ (negsuc k)))

set_signed_duty_lem :
    (m : HBridgeMotor) (d : ℤ)
    → set_signed_duty m d ≡ (if is_zero d then coast m else drive m (oriented m d))
unfolding set_signed_duty
set_signed_duty_lem m d = rw (is_zero-clamp d, turned m.direction (clamp_duty d) (clamp_small d))

oriented_lem :
    (m : HBridgeMotor) (d : ℤ)
    → is_zero d ≡ false
    → (nat_abs (oriented m d) ≡ min (nat_abs d) 1000)
      × ((if ltb_ℤ (pos 0) (oriented m d) then false else true) ≡ raises1 m d)
      × (ltb_ℤ (pos 0) (oriented m d) ≡ raises2 m d)
unfolding clamp_duty
oriented_lem m (pos n) h = ground arith
oriented_lem m (negsuc n) h = ground arith

pub zero_lem :
    (m : HBridgeMotor) (d : ℤ)
    → is_zero d ≡ true
    → (raises1 m d ≡ false) × (raises2 m d ≡ false) × (min (nat_abs d) 1000 ≡ 0)
zero_lem m (pos n) h = ground arith
zero_lem m (negsuc n) h = ground arith

-- The duty is limited to 1000 thousandths in magnitude; its sign and the mounting choose the one
-- direction pin that is raised, and at 0 both are low: the two are never high together.
pub set_signed_duty-Commands :
    (m : HBridgeMotor) (d : ℤ)
    → IsWired m
    → Commands m (set_signed_duty m d) (raises1 m d) (raises2 m d) (min (nat_abs d) 1000)
set_signed_duty-Commands m d w = elim (Bool-cases (is_zero d)) [
  | inl still ↦
      let (off1, off2, none_left) = zero_lem m d still in
      rw (set_signed_duty_lem m d, still, off1, off2, none_left) (coast-Commands m w)
  | inr moving ↦
      let (size, one, two) = oriented_lem m d moving in
      rw (set_signed_duty_lem m d, moving, ← size, ← one, ← two)
        (drive-Commands m (oriented m d) w (omega (arith, size)))
]
