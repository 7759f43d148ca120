-- ===== src/App/Requested.antt =====
-- What `App_State_Tick` makes of the pending requests.
use nuedc_control_car_freert.Prelude.{
  ℕ, ◌≡◌, refl, ap, ◌∙◌, Bool, false, ◌&&◌, if◌then◌else◌, Bool-cases, inl, inr,
}
use nuedc_control_car_freert.Telemetry.{consume_stop, consume_start, consume_duty}
use nuedc_control_car_freert.App.{
  AppState, idle, run, World, Inputs, state_set, take_stop, take_start, take_duty, state_tick,
  hold_duty,
}
use nuedc_control_car_freert.Float.{Float}

-- what the state machine decides by: the state, the three requests and the IMU
pub record Mode : Type 0 where
  pub state : AppState
  pub start : Bool
  pub stop : Bool
  pub duty : Bool
  pub ready : Bool

-- The state machine of the application: a debug duty leads to IDLE before all else, then a start to
-- RUN if the IMU is ready, then a stop to IDLE; with none of them the state stays. Every request
-- is taken.
abbrev pub decide : Mode → Mode
decide m = record m {
  state =
      if m.duty then idle else if m.start && m.ready then run else if m.stop then idle else m.state;
  start = false;
  stop = false;
  duty = false;
}

abbrev after_stop : Mode → Mode
after_stop m = record m { state = if m.stop then idle else m.state; stop = false }

abbrev after_start : Mode → Mode
after_start m = record m { state = if m.start && m.ready then run else m.state; start = false }

abbrev after_duty : Mode → Mode
after_duty m = record m { state = if m.duty then idle else m.state; duty = false }

abbrev pub mode : {F : Type 0} → World F → Mode
mode w = record {
  state = w.ctx.state;
  start = w.requests.start;
  stop = w.requests.stop;
  duty = w.requests.duty_pending;
  ready = w.ctx.imu_ready;
}

module _ {F : Type 0} ⦃f : Float F⦄ where
  take_stop_lem : (now : ℕ) (w : World F) → mode (take_stop now w).0 ≡ after_stop (mode w)
  unfolding take_stop state_set consume_stop
  take_stop_lem now w = elim (Bool-cases w.requests.stop) [
    | inl stop ↦ rw stop refl
    | inr go ↦ rw go refl
  ]

  take_start_lem :
      (i : Inputs) (now : ℕ) (w : World F) → mode (take_start i now w).0 ≡ after_start (mode w)
  unfolding take_start state_set consume_start
  take_start_lem i now w = elim (Bool-cases (w.requests.start && w.ctx.imu_ready)) [
    | inl start ↦ rw start refl
    | inr stay ↦ rw stay refl
  ]

  take_duty_lem : (now : ℕ) (w : World F) → mode (take_duty now w).0 ≡ after_duty (mode w)
  unfolding take_duty state_set hold_duty consume_duty
  take_duty_lem now w = elim (Bool-cases w.requests.duty_pending) [
    | inl duty ↦ rw duty refl
    | inr none ↦ rw none refl
  ]

  -- `App_State_Tick` implements the state machine `decide`: it takes every pending request, and the
  -- state becomes IDLE on a debug duty, else RUN on a start with a ready IMU, else IDLE on a stop,
  -- and else stays. So a start without a ready IMU is lost, and one with a ready IMU leads out of
  -- every state, FAULT included, and past a stop that is pending with it.
  pub state_tick_refines :
      (i : Inputs) (now : ℕ) (w : World F) → mode (state_tick i now w).0 ≡ decide (mode w)
  unfolding state_tick
  state_tick_refines i now w =
      take_duty_lem now _
      ∙ ap after_duty (take_start_lem i now _ ∙ ap after_start (take_stop_lem now w))
