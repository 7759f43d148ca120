-- ===== src/System/Guard.antt =====
-- How liveness, faults, motors and the watchdog act together: the body of `health_task`
-- (app/app_tasks.c) and the other calls on the same state, as steps in any order.
-- `tick_ms` is `g_tick_ms`, which the motor commands read; `feeds` counts the restarts of the
-- watchdog timer by system/watchdog.c.
use nuedc_control_car_freert.Prelude.{
  ℕ, ◌+◌, ◌≡◌, ◌≢◌, refl, ◌∙◌, Bool, true, false, ◌&&◌, not, List, [], ◌∷◌, arith, ◌==◌,
  if◌then◌else◌, Bool-cases, inl, inr,
}
use Prim.Native.Nat.{min}
use nuedc_control_car_freert.Prelude.Int.{ℤ, pos}
use nuedc_control_car_freert.Motor.Board
use nuedc_control_car_freert.Motor.Board.{MotorBoard, is_left}
use nuedc_control_car_freert.Motor.Board.Bounds.{IsSafe, set_duty_lem, set_duty-IsSafe, tick-IsSafe}
use nuedc_control_car_freert.System.Fault
use nuedc_control_car_freert.System.Fault.{FaultState, FaultCode, task_stale, no_fault, is_none}
use nuedc_control_car_freert.System.Health
use nuedc_control_car_freert.System.Health.{HealthState}

pub record Safety : Type 0 where
  pub health : HealthState
  pub fault : FaultState
  pub motors : MotorBoard
  pub tick_ms : ℕ
  pub feeds : ℕ

-- `System_Watchdog_Feed`
unfoldable pub feed : Safety → Safety
feed s = record s { feeds = s.feeds + 1 }

unfoldable pub raise : FaultCode → ℕ → Safety → Safety
raise code detail s =
    let (f, motors, calls) = Fault.raise s.tick_ms s.fault s.motors code detail in
    record s { fault = f; motors = motors }

-- one round of the loop of `health_task`
unfoldable pub health_round : ℕ → Safety → Safety
unfolding feed
health_round now s =
    let (passed, stale_mask) = Health.check s.health now in
    if passed && not (Fault.is_active s.fault)
    then feed s
    else if stale_mask == 0
    then s
    else raise task_stale stale_mask s

-- what the other tasks do to this state: a heartbeat, a speed command, the motor timeout, a fault
pub data SafetyStep : Type 0 where
  health_step : ℕ → SafetyStep
  beat_step : ℕ → ℕ → SafetyStep
  command_step : ℕ → ℕ → ℤ → SafetyStep
  timeout_step : ℕ → SafetyStep
  fault_step : FaultCode → ℕ → SafetyStep

unfoldable pub command : ℕ → ℕ → ℤ → Safety → Safety
command now ch d s = record s { tick_ms = now; motors = (Board.set_duty now s.motors ch d).0 }

abbrev pub apply : Safety → SafetyStep → Safety
apply s (health_step now) = health_round now s
apply s (beat_step task now) = record s { health = Health.beat s.health task now; tick_ms = now }
apply s (command_step now ch d) = command now ch d s
apply s (timeout_step now) = record s { tick_ms = now; motors = (Board.safety_tick now s.motors).0 }
apply s (fault_step code detail) = raise code detail s

abbrev pub run : Safety → List SafetyStep → Safety
run s [] = s
run s (x ∷ xs) = run (apply s x) xs

latched :
    (f : FaultState) (code : FaultCode) (detail : ℕ)
    → Fault.is_active f ≡ true
    → Fault.latch f code detail ≡ f
unfolding Fault.is_active Fault.latch
latched f code detail h = ground arith

raise_latched :
    (s : Safety) (code : FaultCode) (detail : ℕ)
    → Fault.is_active s.fault ≡ true
    → ((raise code detail s).fault ≡ s.fault) × ((raise code detail s).feeds ≡ s.feeds)
unfolding raise Fault.raise
raise_latched s code detail h = (latched s.fault code detail h, refl)

apply_latched :
    (s : Safety) (x : SafetyStep)
    → Fault.is_active s.fault ≡ true
    → ((apply s x).fault ≡ s.fault) × ((apply s x).feeds ≡ s.feeds)
unfolding health_round command
apply_latched s (health_step now) h = elim (Bool-cases ((Health.check s.health now).0)) [
  | inl passed ↦ rw (passed, h) (by_mask (Health.check s.health now).1)
  | inr failed ↦ rw failed (by_mask (Health.check s.health now).1)
]
  where
    by_mask :
        (mask : ℕ)
        → let t = if mask == 0 then s else raise task_stale mask s in
          (t.fault ≡ s.fault) × (t.feeds ≡ s.feeds)
    by_mask mask = elim (Bool-cases (mask == 0)) [
      | inl none_stale ↦ rw none_stale (refl, refl)
      | inr stale ↦ rw stale (raise_latched s task_stale mask h)
    ]
apply_latched s (beat_step task now) h = (refl, refl)
apply_latched s (command_step now ch d) h = (refl, refl)
apply_latched s (timeout_step now) h = (refl, refl)
apply_latched s (fault_step code detail) h = raise_latched s code detail h

-- Once a fault is active, no sequence of rounds, heartbeats, commands, timeouts and further faults
-- feeds the watchdog again, and the first fault and its detail stay recorded.
pub fault_locks_watchdog :
    (s : Safety) (xs : List SafetyStep)
    → Fault.is_active s.fault ≡ true
    → ((run s xs).fault ≡ s.fault) × ((run s xs).feeds ≡ s.feeds)
fault_locks_watchdog s [] h = (refl, refl)
fault_locks_watchdog s (x ∷ xs) h =
    let (kept, unfed) = apply_latched s x h in
    let (kept', unfed') = fault_locks_watchdog (apply s x) xs (rw kept h) in
    (kept' ∙ kept, unfed' ∙ unfed)

-- both motors are commanded to stand still
pub record IsStill (b : MotorBoard) : Type 0 where
  pub left_still : b.left.duty ≡ pos 0
  pub right_still : b.right.duty ≡ pos 0

pub stop_motors_lem : (now : ℕ) (b : MotorBoard) → IsSafe b → IsStill (Fault.stop_motors now b).0
unfolding Fault.stop_motors
stop_motors_lem now b h =
    let b' = (Board.set_duty now b 0 (pos 0)).0 in
    let h' = set_duty-IsSafe now b 0 (pos 0) h in
    record {
      left_still = (set_duty_lem now b' 1 (pos 0) h').0 ∙ (set_duty_lem now b 0 (pos 0) h).0;
      right_still = (set_duty_lem now b' 1 (pos 0) h').1;
    }

raise_stops :
    (s : Safety) (code : FaultCode) (detail : ℕ)
    → IsSafe s.motors
    → code ≢ no_fault
    → IsStill (raise code detail s).motors
      × (Fault.is_active (raise code detail s).fault ≡ true)
      × ((raise code detail s).feeds ≡ s.feeds)
unfolding raise Fault.raise
raise_stops s code detail h real =
    (stop_motors_lem s.tick_ms s.motors h, latch_active s.fault code detail real, refl)
  where
    latch_active :
        (f : FaultState) (c : FaultCode) (d : ℕ)
        → c ≢ no_fault
        → Fault.is_active (Fault.latch f c d) ≡ true
    latch_active f c d ne = unfold Fault.is_active Fault.latch in ground arith

-- A round of the health task in which a task is overdue, after the first two seconds, commands both
-- motors to stand still, leaves a fault active and does not feed the watchdog.
pub health_round_stale :
    (now : ℕ) (s : Safety)
    → IsSafe s.motors
    → (Health.check s.health now).0 ≡ false
    → IsStill (health_round now s).motors
      × (Fault.is_active (health_round now s).fault ≡ true)
      × ((health_round now s).feeds ≡ s.feeds)
unfolding health_round Health.check
health_round_stale now s h failed =
    rw failed (raise_stops s task_stale (Health.stale_mask s.health now) h (λ e. cc))

-- The health task feeds the watchdog exactly if the check passes and no fault is active.
health_round_feeds :
    (now : ℕ) (s : Safety)
    → (health_round now s).feeds ≡ (
        if (Health.check s.health now).0 && not (Fault.is_active s.fault)
        then s.feeds + 1
        else s.feeds)
unfolding health_round raise
health_round_feeds now s =
    elim (Bool-cases ((Health.check s.health now).0 && not (Fault.is_active s.fault))) [
      | inl good ↦ rw good
      | inr bad ↦ rw bad (by_mask ((Health.check s.health now).1 == 0))
    ]
  where
    by_mask :
        (b : Bool)
        → (if b then s else raise task_stale (Health.check s.health now).1 s).feeds ≡ s.feeds
    by_mask true = refl
    by_mask false = refl

pub health_round-IsSafe :
    (now : ℕ) (s : Safety) → IsSafe s.motors → IsSafe (health_round now s).motors
unfolding health_round raise Fault.raise Fault.stop_motors
health_round-IsSafe now s h =
    elim (Bool-cases ((Health.check s.health now).0 && not (Fault.is_active s.fault))) [
      | inl good ↦ rw good h
      | inr bad ↦ rw bad (by_mask ((Health.check s.health now).1 == 0))
    ]
  where
    by_mask :
        (b : Bool)
        → IsSafe (if b then s else raise task_stale (Health.check s.health now).1 s).motors
    by_mask true = h
    by_mask false =
        set_duty-IsSafe s.tick_ms (Board.set_duty s.tick_ms s.motors 0 (pos 0)).0 1 (pos 0)
          (set_duty-IsSafe s.tick_ms s.motors 0 (pos 0) h)

raise-IsSafe :
    (s : Safety) (code : FaultCode) (detail : ℕ)
    → IsSafe s.motors
    → IsSafe (raise code detail s).motors
unfolding raise Fault.raise Fault.stop_motors
raise-IsSafe s code detail h =
    set_duty-IsSafe s.tick_ms (Board.set_duty s.tick_ms s.motors 0 (pos 0)).0 1 (pos 0)
      (set_duty-IsSafe s.tick_ms s.motors 0 (pos 0) h)

apply-IsSafe : (s : Safety) (x : SafetyStep) → IsSafe s.motors → IsSafe (apply s x).motors
unfolding command
apply-IsSafe s (health_step now) h = health_round-IsSafe now s h
apply-IsSafe s (beat_step task now) h = h
apply-IsSafe s (command_step now ch d) h = set_duty-IsSafe now s.motors ch d h
apply-IsSafe s (timeout_step now) h = tick-IsSafe now s.motors h
apply-IsSafe s (fault_step code detail) h = raise-IsSafe s code detail h

run-IsSafe : (s : Safety) (xs : List SafetyStep) → IsSafe s.motors → IsSafe (run s xs).motors
run-IsSafe s [] h = h
run-IsSafe s (x ∷ xs) h = run-IsSafe (apply s x) xs (apply-IsSafe s x h)

-- A round of the health task in which a task is overdue, after the first two seconds, commands both
-- motors to stand still, but not for good: after any further rounds, heartbeats, commands, timeouts
-- and faults a speed command drives the left motor again at the duty asked for, up to 1000, while a
-- fault is active and the watchdog has not been fed since.
pub command_after_stale :
    (now later d : ℕ) (s : Safety) (xs : List SafetyStep)
    → IsSafe s.motors
    → (Health.check s.health now).0 ≡ false
    → let stale = health_round now s in
      let t = command later 0 (pos d) (run stale xs) in
      IsStill stale.motors
      × (t.motors.left.duty ≡ pos (min d 1000))
      × (Fault.is_active t.fault ≡ true)
      × (t.feeds ≡ s.feeds)
unfolding command
command_after_stale now later d s xs h failed =
    let stale = health_round now s in
    let last = run stale xs in
    let (still, active, unfed) = health_round_stale now s h failed in
    let (kept, unfed') = fault_locks_watchdog stale xs active in
    (
      still,
      (set_duty_lem later last.motors 0 (pos d)
          (run-IsSafe stale xs (health_round-IsSafe now s h))).0,
      rw kept active,
      unfed' ∙ unfed,
    )
