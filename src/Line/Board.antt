-- ===== src/Line/Board.antt =====
-- modules/line_sensor/bsp_adc.c: the seven line sensors of the board, each of which answers 4095 when it
-- sees the line and 0 when not. `pins` gives the port and the pin of each, which the device
-- configuration defines.
pub mod Reports
use nuedc_control_car_freert.Prelude.{
  ℕ, zero, suc, ◌+◌, ◌*◌, ◌-◌, ◌^◌, ◌≤◌, ◌<◌, ◌≡◌, refl, sym, ap, ◌∙◌, Bool, true, false,
  Bool-cases, inl, inr, ◌&&◌, ◌||◌, not, List, [], ◌∷◌, ◌++◌, Option, none, some, arith, length,
  map, take, drop, ltb, leb, ◌==◌, if◌then◌else◌,
}
use nuedc_control_car_freert.Prelude.Int.{ℤ}
use nuedc_control_car_freert.Prelude.Words.{u16, u32}
use nuedc_control_car_freert.Platform.{Reader}
use nuedc_control_car_freert.Platform.Gpio
use nuedc_control_car_freert.Platform.Gpio.{GpioPin}
use nuedc_control_car_freert.Line
use nuedc_control_car_freert.Line.{
  LineSensorArray, LineSensorConfig, LineFrame, LineSensor, array_raw, read_raw, get_count, update,
  track_bias, strength_from, min_from, max_from,
}
use nuedc_control_car_freert.Float.{Float, lit}

-- BSP_ADC_CCD_COUNT, without a LINE_CCD7_PIN
abbrev pub ccd_count : ℕ
ccd_count = 7

-- `{ LINE_CCDi_PORT, LINE_CCDi_PIN, BSP_LINE_SENSOR_ACTIVE_LOW }`
abbrev pub ccd : (ℕ → ℕ × ℕ) → ℕ → GpioPin
ccd pins i = record { port = (pins i).0; pin = (pins i).1; active_low = false }

-- `s_line_sensors`
unfoldable pub line_sensors : (ℕ → ℕ × ℕ) → LineSensorArray
line_sensors pins = record {
  count = ccd_count;
  active_raw = 4095;
  inactive_raw = 0;
  channels =
      ccd pins 0 ∷ ccd pins 1 ∷ ccd pins 2 ∷ ccd pins 3 ∷ ccd pins 4 ∷ ccd pins 5 ∷ ccd pins 6 ∷ [];
}

module _ {F : Type 0} ⦃f : Float F⦄ where
  -- `s_line_sensor_config`
  unfoldable pub line_sensor_config : (ℕ → ℕ × ℕ) → LineSensorConfig F
  line_sensor_config pins = record {
    array = some (line_sensors pins);
    read_raw = none;
    count = ccd_count;
    contrast_threshold = 120;
    strength_threshold = 260;
    bias_alpha = lit 35 2;
  }

  -- `BSP_Adc_Init`
  unfoldable pub init : (ℕ → ℕ × ℕ) → LineSensor F
  init pins = Line.init (line_sensor_config pins)

  -- `BSP_Adc_GetCCD`: the sensor, and the array `v` (none is the null pointer) after the copy
  unfoldable pub get_ccd : Reader → LineSensor F → Option (List ℕ) → LineSensor F × Option (List ℕ)
  get_ccd reader s none = (update reader s, none)
  get_ccd reader s (some v) =
      let seen = update reader s in (seen, some (take ccd_count seen.frame.raw ++ drop ccd_count v))

-- `BSP_Adc_GetBattery` and `BSP_Adc_GetBatteryMv`
abbrev pub get_battery : ℕ
get_battery = 0
