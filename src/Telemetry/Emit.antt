-- ===== src/Telemetry/Emit.antt =====
-- modules/telemetry/telemetry.c: the bound variables and the reports. A pointer is an address, none
-- being the null pointer; what the variables hold when a report is made is an argument. A report
-- stands for one call of `BSP_Uart_Printf`, with the values that it prints.
pub mod Pace
use nuedc_control_car_freert.Prelude.{
  ℕ, ◌+◌, Bool, true, false, ◌&&◌, ◌||◌, not, List, [], ◌∷◌, ◌++◌, Option, none, some, map, ltb,
  if◌then◌else◌,
}
use nuedc_control_car_freert.Prelude.Words.{sub32}
use nuedc_control_car_freert.Telemetry.Commands.{Telemetry}
use nuedc_control_car_freert.Float.{Float, ◌⊗◌, lit}

abbrev pub Pointer : Type 0
Pointer = Option ℕ

abbrev pub is_set : Pointer → Bool
is_set none = false
is_set (some p) = true

abbrev pub address : Pointer → ℕ
address none = 0
address (some p) = p

-- what the memory holds at an address, by the type of the variable
pub record Memory (F : Type 0) : Type 0 where
  pub float_at : ℕ → F
  pub u8_at : ℕ → ℕ
  pub u16_at : ℕ → ℕ

-- `TelemetryChassisBind_t`
pub record ChassisBind : Type 0 where
  pub state : Pointer
  pub x_cm : Pointer
  pub y_cm : Pointer
  pub theta_rad : Pointer
  pub target_l : Pointer
  pub target_r : Pointer
  pub meas_l : Pointer
  pub meas_r : Pointer
  pub line_turn : Pointer
  pub valid : Bool

-- `TelemetryLineBind_t`
pub record LineBind : Type 0 where
  pub raw : Pointer
  pub raw_count : ℕ
  pub contrast : Pointer
  pub strength : Pointer
  pub bias : Pointer
  pub on_line : Pointer
  pub valid : Bool

-- `TelemetryImuBind_t`
pub record ImuBind : Type 0 where
  pub pitch_deg : Pointer
  pub roll_deg : Pointer
  pub yaw_deg : Pointer
  pub gx_dps : Pointer
  pub gy_dps : Pointer
  pub gz_dps : Pointer
  pub ax_g : Pointer
  pub ay_g : Pointer
  pub az_g : Pointer
  pub ready : Pointer
  pub valid : Bool

-- `s_chassis`, `s_line` and `s_imu`
pub record Bindings : Type 0 where
  pub chassis : ChassisBind
  pub line : LineBind
  pub imu : ImuBind

-- Telemetry_BindChassis, Telemetry_BindLine and Telemetry_BindImu, on the pointers of a binding
unfoldable pub bind_chassis : Bindings → ChassisBind → Bindings
bind_chassis b c = record b {
  chassis = record c {
    valid =
        is_set c.state
        && is_set c.x_cm
        && is_set c.y_cm
        && is_set c.theta_rad
        && is_set c.target_l
        && is_set c.target_r
        && is_set c.meas_l
        && is_set c.meas_r
        && is_set c.line_turn;
  };
}

unfoldable pub bind_line : Bindings → LineBind → Bindings
bind_line b l = record b {
  line = record l {
    valid =
        is_set l.raw
        && ltb 0 l.raw_count
        && is_set l.contrast
        && is_set l.strength
        && is_set l.bias
        && is_set l.on_line;
  };
}

unfoldable pub bind_imu : Bindings → ImuBind → Bindings
bind_imu b i = record b {
  imu = record i {
    valid =
        is_set i.pitch_deg
        && is_set i.roll_deg
        && is_set i.yaw_deg
        && is_set i.gx_dps
        && is_set i.gy_dps
        && is_set i.gz_dps
        && is_set i.ax_g
        && is_set i.ay_g
        && is_set i.az_g
        && is_set i.ready;
  };
}

pub data Report (F : Type 0) : Type 0 where
  -- $S: the time, the state and the floats
  chassis_report : ℕ → ℕ → List F → Report F
  -- $L: the time, the bias and the integers
  line_report : ℕ → F → List ℕ → Report F
  -- $I: the time, the floats and the ready flag
  imu_report : ℕ → List F → ℕ → Report F

module _ {F : Type 0} ⦃f : Float F⦄ (m : Memory F) where
  abbrev pub float : Pointer → F
  float p = m.float_at (address p)

  abbrev pub byte : Pointer → ℕ
  byte p = m.u8_at (address p)

  abbrev pub word : Pointer → ℕ
  word p = m.u16_at (address p)

  -- DEG_PER_RAD
  abbrev pub deg_per_rad : F
  deg_per_rad = lit 572957795 7

  unfoldable pub emit_chassis : ChassisBind → ℕ → List (Report F)
  emit_chassis c ts_ms =
      if not c.valid
      then []
      else chassis_report ts_ms (byte c.state) (
          float c.x_cm
          ∷ float c.y_cm
          ∷ (float c.theta_rad ⊗ deg_per_rad)
          ∷ float c.target_l
          ∷ float c.target_r
          ∷ float c.meas_l
          ∷ float c.meas_r
          ∷ float c.line_turn
          ∷ [])
        ∷ []

  -- the elements of the array `raw` at these indices, each two bytes wide
  abbrev pub elements : Pointer → List ℕ → List ℕ
  elements p [] = []
  elements p (i ∷ is) = m.u16_at (address p + i + i) ∷ elements p is

  abbrev pub line_head : LineBind → List ℕ
  line_head l = word l.contrast ∷ word l.strength ∷ byte l.on_line ∷ []

  unfoldable pub emit_line : LineBind → ℕ → List (Report F)
  emit_line l ts_ms =
      if not l.valid || ltb l.raw_count 7
      then []
      else if ltb 7 l.raw_count
      then line_report ts_ms (float l.bias)
          (line_head l ++ elements l.raw (0 ∷ 1 ∷ 2 ∷ 3 ∷ 4 ∷ 5 ∷ 6 ∷ 7 ∷ []))
        ∷ []
      else line_report ts_ms (float l.bias)
          (line_head l ++ elements l.raw (0 ∷ 1 ∷ 2 ∷ 3 ∷ 4 ∷ 5 ∷ 6 ∷ []))
        ∷ []

  unfoldable pub emit_imu : ImuBind → ℕ → List (Report F)
  emit_imu i ts_ms =
      if not i.valid
      then []
      else imu_report ts_ms
          (float i.pitch_deg
            ∷ float i.roll_deg
            ∷ float i.yaw_deg
            ∷ float i.gx_dps
            ∷ float i.gy_dps
            ∷ float i.gz_dps
            ∷ float i.ax_g
            ∷ float i.ay_g
            ∷ float i.az_g
            ∷ [])
          (byte i.ready)
        ∷ []

  -- the reports of a tick that is due
  unfoldable pub emit : Bindings → Telemetry → ℕ → List (Report F)
  emit b t ts_ms =
      (if t.enabled
        then emit_chassis b.chassis ts_ms
          ++ (if t.raw_line_enabled then emit_line b.line ts_ms else [])
        else [])
      ++ (if t.raw_imu_enabled then emit_imu b.imu ts_ms else [])

  -- Telemetry_Tick
  unfoldable pub tick : Bindings → Telemetry → ℕ → Telemetry × List (Report F)
  tick b t ts_ms =
      if not t.enabled && not t.raw_imu_enabled
      then (t, [])
      else if not t.emit_primed
      then (record t { emit_primed = true; last_emit_ms = ts_ms }, emit b t ts_ms)
      else if ltb (sub32 ts_ms t.last_emit_ms) t.period_ms
      then (t, [])
      else (record t { last_emit_ms = ts_ms }, emit b t ts_ms)
