-- ===== src/App/Start.antt =====
-- app/app_main.c, the creation of the tasks in app/app_tasks.c, and main.c: what is set up before the
-- scheduler runs. `Boot` is what the static variables hold; `g_tick_ms` is 0 until the tasks run.
pub mod Established
mod Tests
use nuedc_control_car_freert.Prelude.{
  ℕ, Bool, true, false, List, [], ◌∷◌, ◌++◌, some, none, if◌then◌else◌,
}
use nuedc_control_car_freert.Platform.{Call, Reader}
use nuedc_control_car_freert.Encoder
use nuedc_control_car_freert.Motor.Board
use nuedc_control_car_freert.Motor.Board.{MotorPins}
use nuedc_control_car_freert.Control.Pid
use nuedc_control_car_freert.Control.Chassis.{ChassisConfig}
use nuedc_control_car_freert.Control.Chassis.Setup
use nuedc_control_car_freert.Line
use nuedc_control_car_freert.Line.Tracker
use nuedc_control_car_freert.System.Fault
use nuedc_control_car_freert.System.Fault.{FaultState, FaultCode, heap_fault, stack_fault}
use nuedc_control_car_freert.System.Health
use nuedc_control_car_freert.System.Health.{HealthState}
use nuedc_control_car_freert.Telemetry.Emit.{Bindings, bind_chassis, bind_line, bind_imu}
use nuedc_control_car_freert.Imu.State.{zero_axes}
use nuedc_control_car_freert.Imu.Calibration.{Service, cleared}
use nuedc_control_car_freert.Imu.Calibration
use nuedc_control_car_freert.Imu.Task.{Snapshot, off}
use nuedc_control_car_freert.App.{World, Inputs, AppState, state_set, idle, fault}
use nuedc_control_car_freert.Float.{Float, lit, zero_f, neg}

-- a variable that the telemetry prints
pub data Printed : Type 0 where
  state_id pose_x pose_y pose_theta target_left target_right measured_left : Printed
  measured_right line_turn raw contrast strength bias on_line : Printed
  pitch roll yaw gx gy gz ax ay az imu_ready : Printed

-- `xTaskCreateStatic(...)`, the priority being that of the kernel
pub data TaskName : Type 0 where
  health_task imu_task fast_task control_task telemetry_task : TaskName

pub record Task : Type 0 where
  pub name : TaskName
  pub stack_words : ℕ
  pub priority : ℕ

-- where the pins are, and the addresses of the variables
pub record Wiring : Type 0 where
  pub inputs : Inputs
  pub motor_left : MotorPins
  pub motor_right : MotorPins
  pub ccd : ℕ → ℕ × ℕ
  pub at : Printed → ℕ

pub record Boot (F : Type 0) : Type 0 where
  pub world : World F
  pub bindings : Bindings
  pub imu : Service F
  pub snapshot : Snapshot F
  pub fault : FaultState
  pub health : HealthState
  -- whether `Telemetry_OnRxByte` is the callback of the debug port
  pub rx_is_set : Bool
  pub tasks : List Task

-- the calls of `create_tasks`, in order
abbrev pub all_tasks : List Task
all_tasks =
    record { name = health_task; stack_words = 256; priority = 5 }
    ∷ record { name = imu_task; stack_words = 768; priority = 4 }
    ∷ record { name = fast_task; stack_words = 256; priority = 4 }
    ∷ record { name = control_task; stack_words = 384; priority = 3 }
    ∷ record { name = telemetry_task; stack_words = 384; priority = 2 }
    ∷ []

-- The tasks are created up to the first that the kernel refuses: those that exist, and whether all do.
unfoldable pub create_tasks : (TaskName → Bool) → List Task → List Task × Bool
create_tasks created [] = ([], true)
create_tasks created (t ∷ ts) =
    let rest = create_tasks created ts in
    if created t.name then (t ∷ rest.0, rest.1) else ([], false)

unfoldable pub bind_all : (Printed → ℕ) → Bindings → Bindings
bind_all at b =
    bind_imu
      (bind_line
        (bind_chassis b (record {
          state = some (at state_id);
          x_cm = some (at pose_x);
          y_cm = some (at pose_y);
          theta_rad = some (at pose_theta);
          target_l = some (at target_left);
          target_r = some (at target_right);
          meas_l = some (at measured_left);
          meas_r = some (at measured_right);
          line_turn = some (at line_turn);
          valid = false;
        }))
        (record {
          raw = some (at raw);
          raw_count = Line.Board.ccd_count;
          contrast = some (at contrast);
          strength = some (at strength);
          bias = some (at bias);
          on_line = some (at on_line);
          valid = false;
        }))
      (record {
        pitch_deg = some (at pitch);
        roll_deg = some (at roll);
        yaw_deg = some (at yaw);
        gx_dps = some (at gx);
        gy_dps = some (at gy);
        gz_dps = some (at gz);
        ax_g = some (at ax);
        ay_g = some (at ay);
        az_g = some (at az);
        ready = some (at imu_ready);
        valid = false;
      })

module _ {F : Type 0} ⦃f : Float F⦄ where
  -- `k_chassis_config`
  unfoldable pub chassis_config : ChassisConfig F
  chassis_config = record {
    left_pulses_per_cm = lit 7344 2;
    right_pulses_per_cm = lit 7314 2;
    wheel_base_cm = lit 135 1;
    open_loop_cm_per_pwm_ms = lit 22 5;
    speed_out_limit = lit 500 0;
    speed_correction_limit = lit 120 0;
    forward_min_pulse = lit 3 2;
    feedforward_left_slope = lit 69114 6;
    feedforward_left_offset = lit 5751407 6;
    feedforward_right_slope = lit 68201 6;
    feedforward_right_offset = lit 5486958 6;
    integral_delay_ms = 200;
  }

  -- memset(&s_snapshot, 0, sizeof(s_snapshot))
  abbrev zero_snapshot : Snapshot F
  zero_snapshot = record {
    sequence = 0;
    timestamp_ms = 0;
    accel_g = zero_axes;
    gyro_dps = zero_axes;
    temperature_c = zero_f;
    pitch_deg = zero_f;
    roll_deg = zero_f;
    yaw_deg = zero_f;
    gyro_bias_z_dps = zero_f;
    gyro_scale_z = zero_f;
    status = 0;
    state = off;
    yaw_cal_state = Calibration.idle;
    stationary = false;
    is_ready = false;
  }

  -- `IMU_Service_Init`
  unfoldable pub imu_init : Boot F → Boot F
  imu_init b = record b { snapshot = zero_snapshot; imu = record b.imu { yaw_cal = cleared } }

  -- `App_Init` before `App_State_Init`: what the modules' initialisations set
  unfoldable pub init_modules : Wiring → Boot F → Boot F × List Call
  init_modules p b =
      let i = p.inputs in
      let (motors, calls) = Board.init i.reader p.motor_left p.motor_right in
      let w = b.world in
      (
        record (imu_init b) {
          world = record w {
            motors = motors;
            sensor = Tracker.init (Line.Board.init p.ccd);
            encoders = Encoder.init i.reader i.left_pins i.right_pins;
            ctx = record w.ctx {
              chassis = Setup.init (some chassis_config) (lit 8 0) (lit 1 1) zero_f;
              line_pid = Pid.init (lit 18 2) zero_f (lit 2 2) (neg (lit 40 0)) (lit 40 0);
            };
          };
          rx_is_set = true;
          fault = Fault.init;
          health = Health.init 0;
          bindings = bind_all p.at b.bindings;
        },
        calls,
      )

  -- `App_State_Set(state)` before the tasks run
  unfoldable pub set_state : Boot F → AppState → Boot F × List Call
  set_state b state = let (w, calls) = state_set 0 b.world state in (record b { world = w }, calls)

  -- `System_Fault_Raise`, then what follows it in the caller is for the caller
  unfoldable pub raise : ℕ → Boot F → FaultCode → ℕ → Boot F × List Call
  raise now b code detail =
      let (f, motors, calls) = Fault.raise now b.fault b.world.motors code detail in
      (record b { fault = f; world = record b.world { motors = motors } }, calls)

  -- `App_Tasks_Start`
  unfoldable pub tasks_start : (TaskName → Bool) → Boot F → Boot F × List Call
  tasks_start created b =
      let (tasks, all) = create_tasks created all_tasks in
      let (raised, calls) = raise 0 (record b { tasks = tasks }) heap_fault 0 in
      let (failed, calls') = set_state raised fault in
      if all then (record b { tasks = tasks }, []) else (failed, calls ++ calls')

  unfoldable pub app_init : Wiring → (TaskName → Bool) → Boot F → Boot F × List Call
  app_init p created b =
      let (set_up, calls) = init_modules p b in
      let (stands, calls') = set_state set_up idle in
      let (started, calls'') = tasks_start created stands in (started, calls ++ calls' ++ calls'')

  -- `main` where the scheduler returns, at the time `now`
  unfoldable pub scheduler_returned : ℕ → Boot F → Boot F × List Call
  scheduler_returned now b =
      let (motors, calls) = Fault.stop_motors now b.world.motors in
      (record b { world = record b.world { motors = motors } }, calls)

  -- the hooks of the kernel, after which nothing runs
  unfoldable pub malloc_failed : ℕ → Boot F → Boot F × List Call
  malloc_failed now b = raise now b heap_fault 0

  unfoldable pub stack_overflow : ℕ → Boot F → Boot F × List Call
  stack_overflow now b = raise now b stack_fault 0

  unfoldable pub assert_failed : ℕ → Boot F → (line : ℕ) → Boot F × List Call
  assert_failed now b line = raise now b stack_fault line
