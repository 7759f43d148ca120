-- ===== src/Motor/Board/Bounds.antt =====
-- Every sequence of operations on the motor board keeps the duties within the board's limit.
use Prim.Native.Nat.{min}
use nuedc_control_car_freert.Prelude.{
  ◌&&◌, ℕ, ◌≤◌, ◌≡◌, refl, ◌∙◌, List, [], ◌∷◌, arith, ltb, if◌then◌else◌, Bool-cases, inl, inr,
}
use nuedc_control_car_freert.Prelude.Int.{ℤ, pos, negsuc, clamp_ℤ, nat_abs, pos_part}
use nuedc_control_car_freert.Prelude.Words.{sub32}
use nuedc_control_car_freert.Platform.{Reader}
use nuedc_control_car_freert.Motor.Device
use nuedc_control_car_freert.Motor.Device.{
  DevMotor, clamp_signed_board, clamp_ℤ_thousand, clamp_ℤ_idem,
}
use nuedc_control_car_freert.Motor.Board.{
  MotorBoard, MotorPins, is_left, init, set_signed_duty, set_duty, brake, safety_tick, is_moving,
  command_timeout_ms, forward_only,
}

-- a motor as the board configures it, its duty in range
pub record IsLimited (m : DevMotor) : Type 0 where
  pub limit : m.config.max_duty ≡ pos 1000
  pub duty_in : nat_abs m.duty ≤ 1000

pub record IsSafe (b : MotorBoard) : Type 0 where
  pub left_safe : IsLimited b.left
  pub right_safe : IsLimited b.right

-- the calls on the board, with the time and the arguments of each
pub data BoardOp : Type 0 where
  duty_op : ℕ → ℕ → ℤ → BoardOp
  signed_op : ℕ → ℕ → ℤ → BoardOp
  brake_op : ℕ → BoardOp
  tick_op : ℕ → BoardOp

abbrev pub apply : MotorBoard → BoardOp → MotorBoard
apply b (duty_op now ch d) = (set_duty now b ch d).0
apply b (signed_op now ch d) = (set_signed_duty now b ch d).0
apply b (brake_op ch) = (brake b ch).0
apply b (tick_op now) = (safety_tick now b).0

abbrev pub run : MotorBoard → List BoardOp → MotorBoard
run b [] = b
run b (op ∷ ops) = run (apply b op) ops

duty-set :
    (m : DevMotor) (d : ℤ)
    → IsLimited m
    → (Device.set_signed_duty m d).0.duty ≡ clamp_ℤ (negsuc 999) (pos 1000) d
unfolding Device.set_signed_duty
duty-set m d h = clamp_signed_board m d h.limit

set-IsLimited : (m : DevMotor) (d : ℤ) → IsLimited m → IsLimited (Device.set_signed_duty m d).0
unfolding Device.set_signed_duty
set-IsLimited m d h = record {
  limit = h.limit;
  duty_in = rw (clamp_signed_board m d h.limit) (clamp_ℤ_thousand d);
}

brake-IsLimited : (m : DevMotor) → IsLimited m → IsLimited (Device.brake m).0
unfolding Device.brake
brake-IsLimited m h = record { limit = h.limit; duty_in = omega arith }

pub cut :
    (d : ℤ)
    → clamp_ℤ (negsuc 999) (pos 1000) (clamp_ℤ (negsuc 999) (pos 1000) (forward_only d))
      ≡ pos (min (pos_part d) 1000)
cut (pos n) = rw (clamp_ℤ_idem (forward_only (pos n))) (ground arith)
cut (negsuc n) = rw (clamp_ℤ_idem (forward_only (negsuc n))) (ground arith)

signed-IsSafe :
    (now : ℕ) (b : MotorBoard) (ch : ℕ) (d : ℤ) → IsSafe b → IsSafe (set_signed_duty now b ch d).0
unfolding set_signed_duty
signed-IsSafe now b ch d h = elim (Bool-cases (is_left ch)) [
  | inl e ↦
      rw e (record { left_safe = set-IsLimited b.left _ h.left_safe; right_safe = h.right_safe })
  | inr e ↦
      rw e (record { left_safe = h.left_safe; right_safe = set-IsLimited b.right _ h.right_safe })
]

pub tick-IsSafe : (now : ℕ) (b : MotorBoard) → IsSafe b → IsSafe (safety_tick now b).0
unfolding safety_tick
tick-IsSafe now b h =
    elim (Bool-cases (is_moving b && ltb command_timeout_ms (sub32 now b.last_command_ms))) [
      | inl late ↦ rw late (record {
        left_safe = set-IsLimited b.left (pos 0) h.left_safe;
        right_safe = set-IsLimited b.right (pos 0) h.right_safe;
      })
      | inr fine ↦ rw fine h
    ]

brake-IsSafe : (b : MotorBoard) (ch : ℕ) → IsSafe b → IsSafe (brake b ch).0
unfolding brake
brake-IsSafe b ch h = elim (Bool-cases (is_left ch)) [
  | inl e ↦
      rw e (record { left_safe = brake-IsLimited b.left h.left_safe; right_safe = h.right_safe })
  | inr e ↦
      rw e (record { left_safe = h.left_safe; right_safe = brake-IsLimited b.right h.right_safe })
]

pub set_duty-IsSafe :
    (now : ℕ) (b : MotorBoard) (ch : ℕ) (d : ℤ) → IsSafe b → IsSafe (set_duty now b ch d).0
unfolding set_duty
set_duty-IsSafe now b ch d h = signed-IsSafe now b ch (forward_only d) h

apply-IsSafe : (b : MotorBoard) (op : BoardOp) → IsSafe b → IsSafe (apply b op)
apply-IsSafe b (duty_op now ch d) h = set_duty-IsSafe now b ch d h
apply-IsSafe b (signed_op now ch d) h = signed-IsSafe now b ch d h
apply-IsSafe b (brake_op ch) h = brake-IsSafe b ch h
apply-IsSafe b (tick_op now) h = tick-IsSafe now b h

run-IsSafe : (b : MotorBoard) (ops : List BoardOp) → IsSafe b → IsSafe (run b ops)
run-IsSafe b [] h = h
run-IsSafe b (op ∷ ops) h = run-IsSafe (apply b op) ops (apply-IsSafe b op h)

pub init-IsSafe : (read_pins : Reader) (l r : MotorPins) → IsSafe (init read_pins l r).0
unfolding init Device.init Device.start
init-IsSafe read_pins l r = ground arith

-- From the initialised board, whatever calls are made on it, with any duties, in any order and at
-- any times: both duties stay between -1000 and 1000, and both limits at 1000.
pub run_bounds :
    (read_pins : Reader) (l r : MotorPins) (ops : List BoardOp)
    → IsSafe (run (init read_pins l r).0 ops)
run_bounds read_pins l r ops = run-IsSafe (init read_pins l r).0 ops (init-IsSafe read_pins l r)

-- A speed command, of any value, sets the duty of the chosen motor to that value cut to the range
-- from 0 to 1000, leaves the other motor alone, and restarts the command timeout.
pub set_duty_lem :
    (now : ℕ) (b : MotorBoard) (ch : ℕ) (d : ℤ)
    → IsSafe b
    → let c = pos (min (pos_part d) 1000) in
      let b' = (set_duty now b ch d).0 in
      (b'.left.duty ≡ (if is_left ch then c else b.left.duty))
      × (b'.right.duty ≡ (if is_left ch then b.right.duty else c))
      × (b'.last_command_ms ≡ now)
unfolding set_duty set_signed_duty
set_duty_lem now b ch d h = elim (Bool-cases (is_left ch)) [
  | inl e ↦ rw e (duty-set b.left _ h.left_safe ∙ cut d, refl, refl)
  | inr e ↦ rw e (refl, duty-set b.right _ h.right_safe ∙ cut d, refl)
]
