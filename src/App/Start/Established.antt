-- ===== src/App/Start/Established.antt =====
-- What holds when the scheduler starts, and what happens when a task cannot be created.
use nuedc_control_car_freert.Prelude.{
  ℕ, ◌≡◌, refl, ap, ◌∙◌, arith, Bool, true, false, ◌⊎◌, inl, inr, Bool-cases, List,
}
use nuedc_control_car_freert.Prelude.Int.{pos}
use nuedc_control_car_freert.Motor.Board
use nuedc_control_car_freert.Motor.Board.{MotorBoard}
use nuedc_control_car_freert.Motor.Board.Bounds.{IsSafe, init-IsSafe, set_duty-IsSafe}
use nuedc_control_car_freert.Control.Chassis.Normal.{IsNormal, normalize_config-IsNormal}
use nuedc_control_car_freert.Control.Chassis.Setup
use nuedc_control_car_freert.Control.Chassis.Setup.{set_target_speeds}
use nuedc_control_car_freert.Control.Chassis.Drive.{set_duties}
use nuedc_control_car_freert.Line
use nuedc_control_car_freert.Line.Tracker
use nuedc_control_car_freert.System.Fault
use nuedc_control_car_freert.System.Fault.{heap_fault, no_fault, stop_motors}
use nuedc_control_car_freert.System.Guard.{
  Safety, SafetyStep, IsStill, stop_motors_lem, run, fault_locks_watchdog,
}
use nuedc_control_car_freert.Telemetry.Emit.{bind_chassis, bind_line, bind_imu}
use nuedc_control_car_freert.Imu.Calibration
use nuedc_control_car_freert.App.{state_set, idle, fault}
use nuedc_control_car_freert.App.Start.{
  TaskName, Task, Wiring, Boot, chassis_config, all_tasks, create_tasks, bind_all, imu_init,
  init_modules, set_state, raise, tasks_start, app_init,
}
use nuedc_control_car_freert.Float.{Float, IsFloat}

stopped-IsSafe : (now : ℕ) (b : MotorBoard) → IsSafe b → IsSafe (stop_motors now b).0
unfolding stop_motors
stopped-IsSafe now b h =
    set_duty-IsSafe now (Board.set_duty now b 0 (pos 0)).0 1 (pos 0)
      (set_duty-IsSafe now b 0 (pos 0) h)

module _ {F : Type 0} ⦃f : Float F⦄ where
  -- both motors are within their limits and commanded to stand still, the chassis has a configuration
  -- that it can divide by, the sensor is that of the board, the telemetry has every address that it
  -- prints, commands are received, no calibration is open and no attitude is given out as ready
  pub record IsEstablished (p : Wiring) (b : Boot F) : Type 0 where
    pub motors_safe : IsSafe b.world.motors
    pub motors_still : IsStill b.world.motors
    pub chassis_normal : IsNormal b.world.ctx.chassis.config
    pub sensor_own : b.world.sensor.config ≡ Line.Board.line_sensor_config p.ccd
    pub chassis_bound : b.bindings.chassis.valid ≡ true
    pub line_bound : b.bindings.line.valid ≡ true
    pub imu_bound : b.bindings.imu.valid ≡ true
    pub commands_received : b.rx_is_set ≡ true
    pub not_calibrating : b.imu.yaw_cal.state ≡ Calibration.idle
    pub not_ready : b.snapshot.is_ready ≡ false

  module _ ⦃laws : IsFloat F⦄ where
    set_up-IsEstablished :
        (p : Wiring) (b : Boot F) → IsEstablished p (set_state (init_modules p b).0 idle).0
    unfolding set_state state_set init_modules imu_init bind_all bind_chassis bind_line bind_imu
        Setup.init set_target_speeds set_duties Line.Board.init Line.init Tracker.init Line.reset
        stop_motors
    set_up-IsEstablished p b =
        let board = (Board.init p.inputs.reader p.motor_left p.motor_right).0 in
        let safe = init-IsSafe p.inputs.reader p.motor_left p.motor_right in
        record {
          motors_safe = stopped-IsSafe 0 board safe;
          motors_still = stop_motors_lem 0 board safe;
          chassis_normal = normalize_config-IsNormal chassis_config;
          sensor_own = refl;
          chassis_bound = refl;
          line_bound = refl;
          imu_bound = refl;
          commands_received = refl;
          not_calibrating = refl;
          not_ready = refl;
        }

    -- the two stops after a task that could not be created
    failed-IsEstablished :
        (p : Wiring) (b : Boot F)
        → IsEstablished p b
        → IsEstablished p (set_state (raise 0 b heap_fault 0).0 fault).0
    unfolding set_state state_set raise Fault.raise set_target_speeds set_duties stop_motors
    failed-IsEstablished p b h =
        let once = stopped-IsSafe 0 b.world.motors h.motors_safe in
        record {
          motors_safe = stopped-IsSafe 0 (stop_motors 0 b.world.motors).0 once;
          motors_still = stop_motors_lem 0 (stop_motors 0 b.world.motors).0 once;
          chassis_normal = h.chassis_normal;
          sensor_own = h.sensor_own;
          chassis_bound = h.chassis_bound;
          line_bound = h.line_bound;
          imu_bound = h.imu_bound;
          commands_received = h.commands_received;
          not_calibrating = h.not_calibrating;
          not_ready = h.not_ready;
        }

    -- It does not depend on the tasks.
    tasks-IsEstablished :
        (p : Wiring) (b : Boot F) (tasks : List Task)
        → IsEstablished p b
        → IsEstablished p (record b { tasks = tasks })
    tasks-IsEstablished p b tasks h = record {
      motors_safe = h.motors_safe;
      motors_still = h.motors_still;
      chassis_normal = h.chassis_normal;
      sensor_own = h.sensor_own;
      chassis_bound = h.chassis_bound;
      line_bound = h.line_bound;
      imu_bound = h.imu_bound;
      commands_received = h.commands_received;
      not_calibrating = h.not_calibrating;
      not_ready = h.not_ready;
    }

    ready_lem :
        (p : Wiring) (b : Boot F)
        → let ready = (set_state (init_modules p b).0 idle).0 in
          (ready.world.ctx.state ≡ idle) × (ready.fault ≡ Fault.init)
    unfolding set_state state_set init_modules imu_init
    ready_lem p b = (refl, refl)

    failed_lem :
        (b : Boot F)
        → b.fault ≡ Fault.init
        → let failed = (set_state (raise 0 b heap_fault 0).0 fault).0 in
          (failed.tasks ≡ b.tasks)
          × (failed.world.ctx.state ≡ fault)
          × (failed.fault ≡ record { code = heap_fault; detail = 0 })
    unfolding set_state state_set raise Fault.raise Fault.init Fault.latch
    failed_lem b fresh = (refl, refl, ap (λ f. Fault.latch f heap_fault 0) fresh)

    -- Whatever the memory held and whichever tasks the kernel refuses, the start establishes the
    -- invariants of the parts and creates the tasks up to the first refused one. If all are created,
    -- the car is idle and there is no fault; if not, it is in the fault state with the heap fault.
    pub app_init_establishes :
        (p : Wiring) (created : TaskName → Bool) (b : Boot F)
        → let tried = create_tasks created all_tasks in
          let o = (app_init p created b).0 in
          IsEstablished p o
          × (o.tasks ≡ tried.0)
          × (((tried.1 ≡ true) × (o.world.ctx.state ≡ idle) × (o.fault ≡ Fault.init))
              ⊎ ((tried.1 ≡ false)
                  × (o.world.ctx.state ≡ fault)
                  × (o.fault ≡ record { code = heap_fault; detail = 0 })))
    unfolding app_init tasks_start
    app_init_establishes p created b =
        let tried = create_tasks created all_tasks in
        let ready = (set_state (init_modules p b).0 idle).0 in
        let settled = set_up-IsEstablished p b in
        elim (Bool-cases tried.1) [
          | inl all ↦ rw all (
            tasks-IsEstablished p ready tried.0 settled,
            refl,
            inl (refl, (ready_lem p b).0, (ready_lem p b).1),
          )
          | inr refused ↦
              let tasked : Boot F = record ready { tasks = tried.0 } in
              let (same, in_fault, raised) = failed_lem tasked (ready_lem p b).1 in
              rw refused (
                failed-IsEstablished p tasked (tasks-IsEstablished p ready tried.0 settled),
                same,
                inr (refl, in_fault, raised),
              )
        ]

    -- what the safety loop starts from: no time has passed and the watchdog was never fed
    abbrev pub safety : Boot F → Safety
    safety b = record {
      health = b.health;
      fault = b.fault;
      motors = b.world.motors;
      tick_ms = 0;
      feeds = 0;
    }

    -- If the kernel refuses a task, then whatever rounds, heartbeats, commands and faults follow, the
    -- watchdog is never fed, and the heap fault stays recorded.
    pub refused_task_starves :
        (p : Wiring) (created : TaskName → Bool) (b : Boot F) (steps : List SafetyStep)
        → (create_tasks created all_tasks).1 ≡ false
        → let after = run (safety (app_init p created b).0) steps in
          (after.feeds ≡ 0) × (after.fault ≡ record { code = heap_fault; detail = 0 })
    unfolding Fault.is_active
    refused_task_starves p created b steps refused =
        let start = safety (app_init p created b).0 in
        let heap : start.fault ≡ record { code = heap_fault; detail = 0 } =
          elim (app_init_establishes p created b).2 [
            | inl (all, standing, fresh) ↦ absurd (ground arith)
            | inr (missing, in_fault, raised) ↦ raised
          ] in
        let (locked, unfed) = fault_locks_watchdog start steps (ap Fault.is_active heap) in
        (unfed, locked ∙ heap)
