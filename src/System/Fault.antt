-- ===== src/System/Fault.antt =====
-- system/fault_manager.c: the latched fault, which stops the motors whenever it is raised.
use nuedc_control_car_freert.Prelude.{ℕ, Bool, true, false, List, ◌++◌, if◌then◌else◌, not}
use nuedc_control_car_freert.Prelude.Int.{pos}
use nuedc_control_car_freert.Platform.{Call}
use nuedc_control_car_freert.Motor.Board
use nuedc_control_car_freert.Motor.Board.{MotorBoard}

pub data FaultCode : Type 0 where
  no_fault task_stale imu_fault stack_fault heap_fault : FaultCode

-- `s_code` and `s_detail`
pub record FaultState : Type 0 where
  pub code : FaultCode
  pub detail : ℕ

abbrev pub is_none : FaultCode → Bool
is_none no_fault = true
is_none _ = false

unfoldable pub init : FaultState
init = record { code = no_fault; detail = 0 }

-- the two calls `BSP_Motor_SetDuty(0, 0); BSP_Motor_SetDuty(1, 0);`
unfoldable pub stop_motors : ℕ → MotorBoard → MotorBoard × List Call
stop_motors now b =
    let (b', calls) = Board.set_duty now b 0 (pos 0) in
    let (b'', calls') = Board.set_duty now b' 1 (pos 0) in (b'', calls ++ calls')

unfoldable pub latch : FaultState → FaultCode → ℕ → FaultState
latch f code detail = if is_none f.code then record { code = code; detail = detail } else f

-- `System_Fault_Raise`; `now` is the tick count that the motor commands read.
unfoldable pub raise :
    ℕ → FaultState → MotorBoard → FaultCode → ℕ → FaultState × MotorBoard × List Call
raise now f b code detail = (latch f code detail, (stop_motors now b).0, (stop_motors now b).1)

unfoldable pub get : FaultState → FaultCode × ℕ
get f = (f.code, f.detail)

unfoldable pub is_active : FaultState → Bool
is_active f = not (is_none f.code)
