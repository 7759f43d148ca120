-- ===== src/Control/Chassis/Stop.antt =====
-- When `Control_Chassis_Tick` leaves the motors still, and when it drives them.
use nuedc_control_car_freert.Prelude.{
  ℕ, ◌≡◌, refl, ap, ◌∙◌, Bool, ◌&&◌, not, true, false, some, if◌then◌else◌, Bool-cases, inl, inr,
  leb, AllSome, all_and_then, all_any, of_some,
}
use Prim.Native.Nat.{min}
use nuedc_control_car_freert.Prelude.Int.{ℤ, pos, pos_part}
use nuedc_control_car_freert.Encoder.{Encoders}
use nuedc_control_car_freert.Motor.Board
use nuedc_control_car_freert.Motor.Board.{MotorBoard}
use nuedc_control_car_freert.Motor.Board.Bounds.{IsSafe, set_duty_lem, set_duty-IsSafe}
use nuedc_control_car_freert.Control.Pid
use nuedc_control_car_freert.Control.Chassis.{Chassis, integrate_odometry, wrap_pi}
use nuedc_control_car_freert.Control.Chassis.Setup.{clear_debug_duty}
use nuedc_control_car_freert.Control.Chassis.Drive.{
  tick, drive, measure, command, deactivate, set_duties,
}
use nuedc_control_car_freert.Float.{Float, zero_f}

-- the duty that a command of z sets
abbrev pub cut_duty : ℤ → ℤ
cut_duty z = pos (min (pos_part z) 1000)

cut_duty-if :
    (held : Bool) (d : ℤ)
    → cut_duty (if held then d else pos 0) ≡ (if held then cut_duty d else pos 0)
cut_duty-if true d = refl
cut_duty-if false d = refl

-- Both commands of a tick take effect: each motor gets its own, cut to the range from 0 to 1000.
pub set_duties_lem :
    (now : ℕ) (b : MotorBoard) (l r : ℤ)
    → IsSafe b
    → let b' = (set_duties now b l r).0 in
      (b'.left.duty ≡ cut_duty l) × (b'.right.duty ≡ cut_duty r) × (b'.last_command_ms ≡ now)
unfolding set_duties
set_duties_lem now b l r safe =
    let (one, other, time) = set_duty_lem now b 0 l safe in
    let (left, right, again) =
      set_duty_lem now (Board.set_duty now b 0 l).0 1 r (set_duty-IsSafe now b 0 l safe) in
    (left ∙ one, right, again)

module _ {F : Type 0} ⦃f : Float F⦄ where
  -- a debug duty is held at this time
  abbrev pub is_held : Chassis F → ℕ → Bool
  is_held c now = c.debug_pwm_active && not (leb c.debug_pwm_deadline_ms now)

  pub record IsSameDebug (a b : Chassis F) : Type 0 where
    pub active : a.debug_pwm_active ≡ b.debug_pwm_active
    pub left : a.debug_pwm_left ≡ b.debug_pwm_left
    pub right : a.debug_pwm_right ≡ b.debug_pwm_right
    pub deadline : a.debug_pwm_deadline_ms ≡ b.debug_pwm_deadline_ms

  pub measure-IsSameDebug :
      (fuel : ℕ) (c : Chassis F) (e : Encoders)
      → AllSome (λ m. IsSameDebug m c) (measure fuel c e).0
  unfolding measure integrate_odometry
  measure-IsSameDebug fuel c e =
      all_and_then (λ m. IsSameDebug m c) _ _ _
        (all_and_then (λ theta. Unit) _ (wrap_pi fuel _) _ (all_any _)
          (λ theta any. record { active = refl; left = refl; right = refl; deadline = refl }))
        (λ m same. record {
          active = same.active;
          left = same.left;
          right = same.right;
          deadline = same.deadline;
        })

  -- the integrals are cleared, and no speed control is on
  pub record IsCleared (c : Chassis F) : Type 0 where
    pub inactive : c.speed_control_active ≡ false
    pub left : c.pid_left.integral ≡ zero_f
    pub right : c.pid_right.integral ≡ zero_f

  command_idle :
      (c : Chassis F) (now : ℕ)
      → let (c', left, right) = command c false now in
        (left ≡ (if is_held c now then c.debug_pwm_left else pos 0))
        × (right ≡ (if is_held c now then c.debug_pwm_right else pos 0))
        × (c'.debug_pwm_active ≡ is_held c now)
        × IsCleared c'
  unfolding command deactivate clear_debug_duty Pid.reset
  command_idle c now = elim (Bool-cases c.debug_pwm_active) [
    | inl on ↦ elim (Bool-cases (leb c.debug_pwm_deadline_ms now)) [
      | inl over ↦
          rw (on, over) (refl, refl, refl, record { inactive = refl; left = refl; right = refl })
      | inr held ↦
          rw (on, held) (refl, refl, refl, record { inactive = refl; left = refl; right = refl })
    ]
    | inr off ↦ rw off (refl, refl, refl, record { inactive = refl; left = refl; right = refl })
  ]

  held_same : {m c : Chassis F} (now : ℕ) → IsSameDebug m c → is_held m now ≡ is_held c now
  held_same now same = rw (same.active, same.deadline) refl

  -- A tick without the run flag, with motors within their limits and an angle that is wrapped,
  -- returns. It gives both motors duty 0, but for an active debug duty before its deadline, which it
  -- gives them cut to the range from 0 to 1000; the debug duty stays active in that case only.
  -- Speed control is off and both integrals are zero after it, and the command timeout starts anew.
  pub tick_idle :
      (fuel : ℕ) (c m : Chassis F) (e : Encoders) (b : MotorBoard) (now : ℕ)
      → IsSafe b
      → (measure fuel c e).0 ≡ some m
      → let held = is_held c now in
        let (c', b', calls) = drive m false now b in
        (tick fuel c e b false now ≡ some (c', (measure fuel c e).1, b', calls))
        × (b'.left.duty ≡ (if held then cut_duty c.debug_pwm_left else pos 0))
        × (b'.right.duty ≡ (if held then cut_duty c.debug_pwm_right else pos 0))
        × (b'.last_command_ms ≡ now)
        × (c'.debug_pwm_active ≡ held)
        × IsCleared c'
  unfolding tick drive
  tick_idle fuel c m e b now safe measured =
      let same = of_some (λ m. IsSameDebug m c) _ m (measure-IsSameDebug fuel c e) measured in
      let (left, right, active, cleared) = command_idle m now in
      let (set_l, set_r, time) =
        set_duties_lem now b (command m false now).1 (command m false now).2 safe in
      (
        rw measured refl,
        set_l
            ∙ ap cut_duty left
            ∙ cut_duty-if (is_held m now) _
            ∙ rw (held_same now same, same.left) refl,
        set_r
            ∙ ap cut_duty right
            ∙ cut_duty-if (is_held m now) _
            ∙ rw (held_same now same, same.right) refl,
        time,
        active ∙ held_same now same,
        cleared,
      )
