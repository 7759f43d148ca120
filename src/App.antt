-- ===== src/App.antt =====
-- app/app_shared.c, app/app_state.c, app/app_mission.c and the control round of app/app_tasks.c. The
-- world of a control round is one record: the shared context, the requests of the telemetry, the
-- line sensor, the encoders and the motors. `ctx->line_pid` is the controller of the line tracker.
pub mod Rounds
pub mod Requested
pub mod Tasks
pub mod Composed
pub mod Start
pub mod Serial
mod Example
mod Tests
use nuedc_control_car_freert.Prelude.{
  ℕ, Bool, true, false, ◌&&◌, List, [], ◌++◌, Option, none, some, and_then, if◌then◌else◌,
}
use nuedc_control_car_freert.Prelude.Int.{pos}
use nuedc_control_car_freert.Platform.{Call, Reader}
use nuedc_control_car_freert.Encoder.{Encoders, EncoderPins}
use nuedc_control_car_freert.Motor.Board.{MotorBoard}
use nuedc_control_car_freert.Control.Pid.{Pid}
use nuedc_control_car_freert.Control.Chassis.{Chassis, clampf}
use nuedc_control_car_freert.Control.Chassis.Setup
use nuedc_control_car_freert.Control.Chassis.Drive
use nuedc_control_car_freert.Control.Chassis.Drive.{set_duties}
use nuedc_control_car_freert.Line.{LineSensor}
use nuedc_control_car_freert.Line.Tracker
use nuedc_control_car_freert.Telemetry
use nuedc_control_car_freert.Telemetry.{Requests, DutyRequest}
use nuedc_control_car_freert.Float.{Float, ◌⊕◌, ◌⊖◌, ◌⊗◌, ◌⊘◌, lit, zero_f, neg}

-- `AppState_t`
pub data AppState : Type 0 where
  idle : AppState
  run : AppState
  fault : AppState

abbrev pub is_run : AppState → Bool
is_run idle = false
is_run run = true
is_run fault = false

-- `AppContext_t` without the copies of the attitude, which only the telemetry prints (`AttitudeCopy`)
pub record AppContext (F : Type 0) : Type 0 where
  pub state : AppState
  pub chassis : Chassis F
  pub line_pid : Pid F
  pub line_turn : F
  pub imu_ready : Bool

-- what the control task reads and writes
pub record World (F : Type 0) : Type 0 where
  pub ctx : AppContext F
  pub requests : Requests
  pub sensor : LineSensor F
  pub encoders : Encoders
  pub motors : MotorBoard

-- the pins as the round reads them, and where the encoders are
pub record Inputs : Type 0 where
  pub reader : Reader
  pub left_pins : EncoderPins
  pub right_pins : EncoderPins

module _ {F : Type 0} ⦃f : Float F⦄ where
  -- App_State_Set, which stops the motors at `now` unless the state is RUN
  unfoldable pub state_set : ℕ → World F → AppState → World F × List Call
  state_set now w state =
      let (stopped, calls) = set_duties now w.motors (pos 0) (pos 0) in
      if is_run state then (record w { ctx = record w.ctx { state = state } }, []) else (
        record w {
          ctx = record w.ctx {
            state = state;
            chassis = Setup.set_target_speeds w.ctx.chassis zero_f zero_f;
          };
          motors = stopped;
        },
        calls,
      )

  -- `if (Telemetry_ConsumeStopRequest()) { ... }`
  unfoldable pub take_stop : ℕ → World F → World F × List Call
  take_stop now w =
      let (requests, wanted) = Telemetry.consume_stop w.requests in
      let taken = record w { requests = requests } in
      if wanted then state_set now taken idle else (taken, [])

  -- `if (Telemetry_ConsumeStartRequest() && ctx->imu_ready) { ... }`
  unfoldable pub take_start : Inputs → ℕ → World F → World F × List Call
  take_start i now w =
      let (requests, wanted) = Telemetry.consume_start w.requests in
      let (chassis, encoders) =
        Setup.reset_odometry i.reader i.left_pins i.right_pins w.encoders w.ctx.chassis
          Setup.zero_pose in
      let taken = record w { requests = requests } in
      let ready = record taken { ctx = record w.ctx { chassis = chassis }; encoders = encoders } in
      if wanted && w.ctx.imu_ready then state_set now ready run else (taken, [])

  -- `Control_Chassis_SetDebugDuty(...)` with the requested duties
  unfoldable pub hold_duty : ℕ → World F → DutyRequest → World F
  hold_duty now w d = record w {
    ctx = record w.ctx {
      chassis = Setup.set_debug_duty w.ctx.chassis d.left_pwm d.right_pwm now d.hold_ms;
    };
  }

  -- `if (Telemetry_ConsumeDutyRequest(&duty)) { ... }`
  unfoldable pub take_duty : ℕ → World F → World F × List Call
  take_duty now w =
      let (requests, wanted) = Telemetry.consume_duty w.requests in
      let taken = record w { requests = requests } in
      let (stopped, calls) = state_set now taken idle in
      elim wanted [ none ↦ (taken, []) | some d ↦ (hold_duty now stopped d, calls) ]

  unfoldable pub state_tick : Inputs → ℕ → World F → World F × List Call
  state_tick i now w =
      let (w1, calls1) = take_stop now w in
      let (w2, calls2) = take_start i now w1 in
      let (w3, calls3) = take_duty now w2 in (w3, calls1 ++ calls2 ++ calls3)

  unfoldable pub mission_tick : Inputs → World F → World F
  mission_tick i w =
      let base = lit 20 0 in
      let left_base = base ⊗ lit 7344 2 ⊘ lit 100 0 in
      let right_base = base ⊗ lit 7314 2 ⊘ lit 100 0 in
      let (sensor, pid, turn) = Tracker.update i.reader w.sensor w.ctx.line_pid in
      let line_turn = clampf turn (neg (lit 40 0)) (lit 40 0) in
      if is_run w.ctx.state
      then record w {
        sensor = sensor;
        ctx = record w.ctx {
          line_pid = pid;
          line_turn = line_turn;
          chassis =
              Setup.set_target_speeds w.ctx.chassis (left_base ⊖ line_turn)
                (right_base ⊕ line_turn);
        };
      }
      else record w {
        ctx = record w.ctx {
          line_turn = zero_f;
          chassis = Setup.set_target_speeds w.ctx.chassis zero_f zero_f;
        };
      }

  -- `Control_Chassis_Tick` on the shared state
  unfoldable pub chassis_tick : ℕ → ℕ → World F → Option (World F × List Call)
  chassis_tick fuel now w =
      and_then (Drive.tick fuel w.ctx.chassis w.encoders w.motors (is_run w.ctx.state) now) (λ r.
        let (chassis, encoders, motors, calls) = r in
        some (
          record w {
            ctx = record w.ctx { chassis = chassis };
            encoders = encoders;
            motors = motors;
          },
          calls,
        ))

  -- the loop body of `control_task` without its heartbeat
  unfoldable pub control_round : ℕ → Inputs → ℕ → World F → Option (World F × List Call)
  control_round fuel i now w =
      let (decided, calls) = state_tick i now w in
      and_then (chassis_tick fuel now (mission_tick i decided)) (λ r. some (r.0, calls ++ r.1))
