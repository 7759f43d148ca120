-- ===== src/App/Rounds.antt =====
-- What a round of the control task does to the motors while the car is not to run.
use nuedc_control_car_freert.Prelude.{
  ℕ, ◌≡◌, refl, ap, ◌∙◌, true, false, ◌&&◌, some, List, ◌++◌, if◌then◌else◌, Bool-cases, inl, inr,
}
use nuedc_control_car_freert.Prelude.Int.{ℤ, pos}
use nuedc_control_car_freert.Platform.{Call}
use nuedc_control_car_freert.Motor.Board.{MotorBoard}
use nuedc_control_car_freert.Motor.Board.Bounds.{IsSafe, set_duty-IsSafe}
use nuedc_control_car_freert.Control.Chassis.{Chassis}
use nuedc_control_car_freert.Control.Chassis.Setup
use nuedc_control_car_freert.Control.Chassis.Drive.{set_duties, measure, drive}
use nuedc_control_car_freert.Control.Chassis.Stop.{is_held, cut_duty, tick_idle}
use nuedc_control_car_freert.Telemetry.{consume_stop, consume_start, consume_duty}
use nuedc_control_car_freert.App.{
  AppState, idle, is_run, World, Inputs, state_set, take_stop, take_start, take_duty, state_tick,
  hold_duty, mission_tick, chassis_tick, control_round,
}
use nuedc_control_car_freert.Float.{Float, zero_f}

set_duties-IsSafe :
    (now : ℕ) (b : MotorBoard) (l r : ℤ) → IsSafe b → IsSafe (set_duties now b l r).0
unfolding set_duties
set_duties-IsSafe now b l r safe = set_duty-IsSafe now _ 1 r (set_duty-IsSafe now b 0 l safe)

module _ {F : Type 0} ⦃f : Float F⦄ where
  state_set-IsSafe :
      (now : ℕ) (w : World F) (s : AppState) → IsSafe w.motors → IsSafe (state_set now w s).0.motors
  unfolding state_set
  state_set-IsSafe now w s safe = elim (Bool-cases (is_run s)) [
    | inl e ↦ rw e safe
    | inr e ↦ rw e (set_duties-IsSafe now w.motors (pos 0) (pos 0) safe)
  ]

  take_stop-IsSafe : (now : ℕ) (w : World F) → IsSafe w.motors → IsSafe (take_stop now w).0.motors
  unfolding take_stop consume_stop
  take_stop-IsSafe now w safe = elim (Bool-cases w.requests.stop) [
    | inl e ↦ rw e (state_set-IsSafe now _ idle safe)
    | inr e ↦ rw e safe
  ]

  take_start-IsSafe :
      (i : Inputs) (now : ℕ) (w : World F) → IsSafe w.motors → IsSafe (take_start i now w).0.motors
  unfolding take_start consume_start state_set
  take_start-IsSafe i now w safe = elim (Bool-cases (w.requests.start && w.ctx.imu_ready)) [
    | inl e ↦ rw e safe
    | inr e ↦ rw e safe
  ]

  take_duty-IsSafe : (now : ℕ) (w : World F) → IsSafe w.motors → IsSafe (take_duty now w).0.motors
  unfolding take_duty consume_duty hold_duty
  take_duty-IsSafe now w safe = elim (Bool-cases w.requests.duty_pending) [
    | inl e ↦ rw e (state_set-IsSafe now _ idle safe)
    | inr e ↦ rw e safe
  ]

  pub state_tick-IsSafe :
      (i : Inputs) (now : ℕ) (w : World F) → IsSafe w.motors → IsSafe (state_tick i now w).0.motors
  unfolding state_tick
  state_tick-IsSafe i now w safe =
      take_duty-IsSafe now _ (take_start-IsSafe i now _ (take_stop-IsSafe now w safe))

  -- the world on which the tick of the chassis works, without RUN
  abbrev pub halted : World F → World F
  halted w = record w {
    ctx = record w.ctx {
      line_turn = zero_f;
      chassis = Setup.set_target_speeds w.ctx.chassis zero_f zero_f;
    };
  }

  chassis_tick_idle :
      (fuel now : ℕ) (w : World F) (m : Chassis F)
      → is_run w.ctx.state ≡ false
      → IsSafe w.motors
      → (measure fuel w.ctx.chassis w.encoders).0 ≡ some m
      → let held = is_held w.ctx.chassis now in
        (w' : World F) × (calls : List Call) × (chassis_tick fuel now w ≡ some (w', calls))
        × (w'.motors.left.duty ≡ (if held then cut_duty w.ctx.chassis.debug_pwm_left else pos 0))
        × (w'.motors.right.duty ≡ (if held then cut_duty w.ctx.chassis.debug_pwm_right else pos 0))
        × (w'.ctx.state ≡ w.ctx.state)
  unfolding chassis_tick
  chassis_tick_idle fuel now w m stopped safe measured =
      let (returns, left, right, time, active, cleared) =
        tick_idle fuel w.ctx.chassis m w.encoders w.motors now safe measured in
      let (c', b', calls) = drive m false now w.motors in
      let w' = record w {
        ctx = record w.ctx { chassis = c' };
        encoders = (measure fuel w.ctx.chassis w.encoders).1;
        motors = b';
      } in
      (w', calls, rw (stopped, returns) refl, left, right, refl)

  -- A round whose requests leave a state other than RUN, with motors within their limits and an
  -- angle that is wrapped, returns in that state. Both motors have duty 0 then, unless a debug duty
  -- is held past `now`: in that case they turn with it, cut to the range from 0 to 1000.
  pub control_round_idle :
      (fuel : ℕ) (i : Inputs) (now : ℕ) (w : World F) (m : Chassis F)
      → let decided = (state_tick i now w).0 in
        is_run decided.ctx.state ≡ false
        → IsSafe w.motors
        → (measure fuel (halted decided).ctx.chassis decided.encoders).0 ≡ some m
        → let held = is_held decided.ctx.chassis now in
          (w' : World F) × (calls : List Call) × (control_round fuel i now w ≡ some (w', calls))
          × (w'.motors.left.duty
              ≡ (if held then cut_duty decided.ctx.chassis.debug_pwm_left else pos 0))
          × (w'.motors.right.duty
              ≡ (if held then cut_duty decided.ctx.chassis.debug_pwm_right else pos 0))
          × (w'.ctx.state ≡ decided.ctx.state)
  unfolding control_round mission_tick Setup.set_target_speeds
  control_round_idle fuel i now w m stopped safe measured =
      let decided = (state_tick i now w).0 in
      let (w', calls, returns, left, right, state) =
        chassis_tick_idle fuel now (halted decided) m stopped (state_tick-IsSafe i now w safe)
          measured in
      (w', (state_tick i now w).1 ++ calls, rw (stopped, returns) refl, left, right, state)

  no_duty : (now : ℕ) (w : World F) → w.requests.duty_pending ≡ false → (take_duty now w).0 ≡ w
  unfolding take_duty consume_duty
  no_duty now w duty = rw duty refl

  no_start :
      (i : Inputs) (now : ℕ) (w : World F) → w.requests.start ≡ false → (take_start i now w).0 ≡ w
  unfolding take_start consume_start
  no_start i now w start = rw start refl

  -- a stop takes its request, stops the motors and drops the target speeds
  stop_lem :
      (now : ℕ) (w : World F)
      → w.requests.stop ≡ true
      → (take_stop now w).0 ≡ record w {
        requests = record w.requests { stop = false };
        ctx = record (halted w).ctx { state = idle; line_turn = w.ctx.line_turn };
        motors = (set_duties now w.motors (pos 0) (pos 0)).0;
      }
  unfolding take_stop state_set consume_stop
  stop_lem now w stop = rw stop refl

  stop_only :
      (i : Inputs) (now : ℕ) (w : World F)
      → w.requests.stop ≡ true
      → w.requests.start ≡ false
      → w.requests.duty_pending ≡ false
      → (state_tick i now w).0 ≡ record w {
        requests = record w.requests { stop = false };
        ctx = record (halted w).ctx { state = idle; line_turn = w.ctx.line_turn };
        motors = (set_duties now w.motors (pos 0) (pos 0)).0;
      }
  unfolding state_tick
  stop_only i now w stop start duty =
      let first = stop_lem now w stop in
      let started = no_start i now _ (ap (λ v. v.requests.start) first ∙ start) in
      no_duty now _ (ap (λ v. v.requests.duty_pending) (started ∙ first) ∙ duty) ∙ started ∙ first

  -- A stop does not end a debug duty. In a round with a stop request and no other, with motors
  -- within their limits and an angle that is wrapped, the state becomes IDLE; but where a debug duty
  -- is active and its deadline is still to come, the same round drives the motors with it again,
  -- cut to the range from 0 to 1000.
  pub stop_keeps_debug :
      (fuel : ℕ) (i : Inputs) (now : ℕ) (w : World F) (m : Chassis F)
      → w.requests.stop ≡ true
      → w.requests.start ≡ false
      → w.requests.duty_pending ≡ false
      → is_held w.ctx.chassis now ≡ true
      → IsSafe w.motors
      → (measure fuel (halted w).ctx.chassis w.encoders).0 ≡ some m
      → (w' : World F) × (calls : List Call) × (control_round fuel i now w ≡ some (w', calls))
        × (w'.ctx.state ≡ idle)
        × (w'.motors.left.duty ≡ cut_duty w.ctx.chassis.debug_pwm_left)
        × (w'.motors.right.duty ≡ cut_duty w.ctx.chassis.debug_pwm_right)
  unfolding Setup.set_target_speeds
  stop_keeps_debug fuel i now w m stop start duty held safe measured =
      let only = stop_only i now w stop start duty in
      let halts = ap (λ v. is_run v.ctx.state) only in
      let still = ap (λ v. is_held v.ctx.chassis now) only ∙ held in
      let moved = ap (λ v. (measure fuel (halted v).ctx.chassis v.encoders).0) only ∙ measured in
      let (w', calls, returns, left, right, state) =
        control_round_idle fuel i now w m halts safe moved in
      (
        w',
        calls,
        returns,
        state ∙ ap (λ v. v.ctx.state) only,
        left ∙ rw still (ap (λ v. cut_duty v.ctx.chassis.debug_pwm_left) only),
        right ∙ rw still (ap (λ v. cut_duty v.ctx.chassis.debug_pwm_right) only),
      )
