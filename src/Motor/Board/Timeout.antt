-- ===== src/Motor/Board/Timeout.antt =====
-- The command timeout of `BSP_Motor_SafetyTick`.
use nuedc_control_car_freert.Prelude.{
  ℕ, ◌+◌, ◌^◌, ◌<◌, ◌≡◌, refl, ap, ◌∙◌, Bool, true, false, ◌&&◌, List, [], ◌∷◌, ◌++◌, arith, leb,
  ltb, if◌then◌else◌, Bool-cases, inl, inr,
}
use nuedc_control_car_freert.Prelude.Int.{pos}
use nuedc_control_car_freert.Prelude.Words.{sub32, u32}
use nuedc_control_car_freert.Platform.HBridge
use nuedc_control_car_freert.Platform.HBridge.{is_zero}
use nuedc_control_car_freert.Motor.Device
use nuedc_control_car_freert.Motor.Device.{DevMotor, clamp_signed_board}
use nuedc_control_car_freert.Motor.Board.{MotorBoard, is_moving, safety_tick}
use nuedc_control_car_freert.Motor.Board.Bounds.{IsLimited, IsSafe, tick-IsSafe}

&&-true : (a : Bool) → a ≡ (a && true)
&&-true true = refl
&&-true false = refl

&&-assoc : (a b c : Bool) → (a && b && c) ≡ (a && (b && c))
&&-assoc true b c = refl
&&-assoc false b c = refl

set_zero :
    (m : DevMotor)
    → IsLimited m
    → Device.set_signed_duty m (pos 0) ≡ (record m { duty = pos 0 }, HBridge.coast m.config.output)
unfolding Device.set_signed_duty
set_zero m h = rw (clamp_signed_board m (pos 0) h.limit)

-- the clock value `e` milliseconds after the last command
abbrev pub after : MotorBoard → ℕ → ℕ
after b e = u32 (b.last_command_ms + e)

elapsed_lem :
    (b : MotorBoard) (e : ℕ)
    → b.last_command_ms < 2 ^ 32
    → e < 2 ^ 32
    → sub32 (after b e) b.last_command_ms ≡ e
elapsed_lem b e hb he = omega arith

-- A safety tick `e` milliseconds after the last command, with the clock wrapping in between or not,
-- stops both motors by letting them coast if the board moves and `e` exceeds 100, and otherwise
-- changes nothing and makes no call.
safety_tick_lem :
    (b : MotorBoard) (e : ℕ)
    → IsSafe b
    → b.last_command_ms < 2 ^ 32
    → e < 2 ^ 32
    → safety_tick (after b e) b ≡ (
        if is_moving b && ltb 100 e
        then (
          record b {
            left = record (b.left) { duty = pos 0 };
            right = record (b.right) { duty = pos 0 };
          },
          HBridge.coast b.left.config.output ++ HBridge.coast b.right.config.output,
        )
        else (b, []))
unfolding safety_tick
safety_tick_lem b e h hb he =
    rw (elapsed_lem b e hb he, set_zero b.left h.left_safe, set_zero b.right h.right_safe)

-- ticks at the given times after the last command, and no command between them
abbrev pub ticks : MotorBoard → List ℕ → MotorBoard
ticks b [] = b
ticks b (e ∷ es) = ticks (safety_tick (after b e) b).0 es

abbrev pub all_within : ℕ → List ℕ → Bool
all_within limit [] = true
all_within limit (e ∷ es) = leb e limit && all_within limit es

abbrev pub AllBelow : ℕ → List ℕ → Type 0
AllBelow n [] = Unit {0}
AllBelow n (e ∷ es) = (e < n) × AllBelow n es

tick_moves :
    (b : MotorBoard) (e : ℕ)
    → IsSafe b
    → b.last_command_ms < 2 ^ 32
    → e < 2 ^ 32
    → (is_moving (safety_tick (after b e) b).0 ≡ (is_moving b && leb e 100))
      × ((safety_tick (after b e) b).0.last_command_ms ≡ b.last_command_ms)
unfolding Device.get_duty
tick_moves b e h hb he = elim (Bool-cases (is_moving b)) [
  | inl moving ↦ elim (Bool-cases (ltb 100 e)) [
    | inl late ↦ rw (safety_tick_lem b e h hb he) (rw (moving, late) (ground arith, refl))
    | inr fine ↦ rw (safety_tick_lem b e h hb he) (rw (moving, fine) (moving ∙ ground arith, refl))
  ]
  | inr still ↦ rw (safety_tick_lem b e h hb he) (rw still (still, refl))
]

-- While no command comes, the motors still turn after any safety ticks exactly when they turned
-- before and every tick came at most 100 milliseconds after the last command.
pub ticks_stop :
    (b : MotorBoard) (es : List ℕ)
    → IsSafe b
    → b.last_command_ms < 2 ^ 32
    → AllBelow (2 ^ 32) es
    → is_moving (ticks b es) ≡ (is_moving b && all_within 100 es)
ticks_stop b [] h hb hes = &&-true (is_moving b)
ticks_stop b (e ∷ es) h hb hes =
    let now = after b e in
    let (moves, same) = tick_moves b e h hb hes.0 in
    ticks_stop (safety_tick now b).0 es (tick-IsSafe now b h) (rw same hb) hes.1
    ∙ ap (λ x. x && all_within 100 es) moves
    ∙ &&-assoc (is_moving b) (leb e 100) (all_within 100 es)
