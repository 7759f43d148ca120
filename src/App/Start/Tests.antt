-- ===== src/App/Start/Tests.antt =====
-- The start at a concrete car.
use nuedc_control_car_freert.Prelude.{◌+◌, ◌≡◌, refl, Bool, ◌⊎◌, true, false, [], ◌∷◌}
use nuedc_control_car_freert.Prelude.Int.{ℤ}
use nuedc_control_car_freert.App.{idle, fault}
use nuedc_control_car_freert.System.Health
use nuedc_control_car_freert.App.Start
use nuedc_control_car_freert.App.Start.{
  Boot, TaskName, health_task, imu_task, fast_task, control_task, telemetry_task, create_tasks,
  all_tasks, app_init,
}
use nuedc_control_car_freert.App.Start.Established.{
  IsEstablished, safety, app_init_establishes, refused_task_starves,
}
use nuedc_control_car_freert.System.Fault
use nuedc_control_car_freert.System.Fault.{heap_fault, task_stale}
use nuedc_control_car_freert.System.Guard.{run, beat_step, health_step}
use nuedc_control_car_freert.Float.{IsFloat}
use nuedc_control_car_freert.Float.Micro.{micro, micro-IsFloat}
use nuedc_control_car_freert.App.Example.{
  motor_pins, inputs, calm, bindings, asked_to_start, no_snapshot,
}

instance micro_laws : IsFloat ℤ
micro_laws = micro-IsFloat

-- where the pins and the variables are
abbrev wiring : Start.Wiring
wiring = record {
  inputs = inputs;
  motor_left = motor_pins;
  motor_right = motor_pins;
  ccd = λ i. (4, 1 + i);
  at = λ v. 8192;
}

-- a memory that held something else
abbrev old_memory : Boot ℤ
old_memory = record {
  world = asked_to_start;
  bindings = bindings;
  imu = calm;
  snapshot = no_snapshot;
  fault = record { code = task_stale; detail = 3 };
  health = Health.init 7;
  rx_is_set = false;
  tasks = [];
}

-- the kernel has no place for the control task
abbrev no_control : TaskName → Bool
no_control health_task = true
no_control imu_task = true
no_control fast_task = true
no_control control_task = false
no_control telemetry_task = true

app_init_establishes_example :
    let tried = create_tasks (λ t. true) all_tasks in
    let o = (app_init wiring (λ t. true) old_memory).0 in
    IsEstablished wiring o
    × (o.tasks ≡ tried.0)
    × (((tried.1 ≡ true) × (o.world.ctx.state ≡ idle) × (o.fault ≡ Fault.init))
        ⊎ ((tried.1 ≡ false)
            × (o.world.ctx.state ≡ fault)
            × (o.fault ≡ record { code = heap_fault; detail = 0 })))
app_init_establishes_example = app_init_establishes wiring (λ t. true) old_memory

control_refused : (create_tasks no_control all_tasks).1 ≡ false
unfolding create_tasks
control_refused = refl

refused_task_starves_example :
    let after =
      run
        (safety (app_init wiring no_control old_memory).0)
        (beat_step 0 5 ∷ health_step 20 ∷ health_step 40 ∷ []) in
    (after.feeds ≡ 0) × (after.fault ≡ record { code = heap_fault; detail = 0 })
refused_task_starves_example =
    refused_task_starves wiring no_control old_memory
      (beat_step 0 5 ∷ health_step 20 ∷ health_step 40 ∷ []) control_refused
