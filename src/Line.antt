-- ===== src/Line.antt =====
-- The reflectance sensors: platform/mspm0g3507/drivers/drv_line_sensor.c, the device in
-- modules/line_sensor/dev_line_sensor.c with the board's instance in bsp_adc.c (7 sensors), and
-- control/line_tracker.c. A null array or read callback is `none`; `reader` stands for the pins.
pub mod Tracker
pub mod Board
pub mod Weights
mod Tests
use nuedc_control_car_freert.Prelude.{
  ℕ, zero, suc, ◌+◌, ◌-◌, ◌*◌, ◌/◌, ◌^◌, Bool, true, false, ◌&&◌, ◌||◌, not, List, [], ◌∷◌, ◌++◌,
  Option, none, some, if◌then◌else◌, ltb, leb, ◌==◌, bit_or, length, get_or, map, take, drop,
  replicate,
}
use nuedc_control_car_freert.Prelude.Int.{ℤ, pos, ◌+ℤ◌, ◌-ℤ◌, ◌*ℤ◌}
use nuedc_control_car_freert.Prelude.Words.{u8, u16, u32, i16, i32}
use nuedc_control_car_freert.Platform.{Reader}
use nuedc_control_car_freert.Platform.Gpio
use nuedc_control_car_freert.Platform.Gpio.{GpioPin}
use nuedc_control_car_freert.Float.{Float, ◌⊕◌, ◌⊖◌, ◌⊗◌, ◌⊘◌, ◌≺◌, ◌≼◌, lit, zero_f}

-- DRV_LINE_SENSOR_MAX_COUNT
abbrev pub max_count : ℕ
max_count = 8

-- `DrvLineSensorArray`
pub record LineSensorArray : Type 0 where
  pub count : ℕ
  pub active_raw : ℕ
  pub inactive_raw : ℕ
  pub channels : List GpioPin

-- `Drv_LineSensor_Count`, and `clamp_count`
abbrev pub clamp_count : ℕ → ℕ
clamp_count n = if ltb max_count n then max_count else n

-- the loop of `Drv_LineSensor_ReadBits` from channel i on
abbrev bits_from : Reader → ℕ → List GpioPin → ℕ
bits_from reader i [] = 0
bits_from reader i (p ∷ ps) =
    bit_or (if Gpio.read_active reader p then u8 (2 ^ i) else 0) (bits_from reader (suc i) ps)

unfoldable pub array_bits : Reader → LineSensorArray → ℕ
array_bits reader a = bits_from reader 0 (take (clamp_count a.count) a.channels)

-- `Drv_LineSensor_ReadRaw`: the array `raw` after the writes
unfoldable pub array_raw : Reader → LineSensorArray → List ℕ → ℕ → List ℕ
array_raw reader a raw raw_count =
    let own = clamp_count a.count in
    let n = if ltb raw_count own then raw_count else own in
    map (λ p. if Gpio.read_active reader p then a.active_raw else a.inactive_raw)
      (take n a.channels)
    ++ drop n raw

-- `DevLineSensorConfig`, its callback applied to its context
pub record LineSensorConfig (F : Type 0) : Type 0 where
  pub array : Option LineSensorArray
  pub read_raw : Option (List ℕ → ℕ → List ℕ)
  pub count : ℕ
  pub contrast_threshold : ℕ
  pub strength_threshold : ℕ
  pub bias_alpha : F

-- `DevLineSensorFrame`
pub record LineFrame (F : Type 0) : Type 0 where
  pub raw : List ℕ
  pub count : ℕ
  pub bits : ℕ
  pub min_value : ℕ
  pub max_value : ℕ
  pub contrast : ℕ
  pub strength : ℕ
  pub bias : F
  pub last_bias : F
  pub on_line : Bool

-- `DevLineSensor`; `has_array` is whether the configuration has one
pub record LineSensor (F : Type 0) : Type 0 where
  pub config : LineSensorConfig F
  pub frame : LineFrame F
  pub bias_primed : Bool

-- sensor_weight
abbrev pub sensor_weight : ℕ → ℕ → ℤ
sensor_weight index count = i16 (pos (2 * index) -ℤ (pos count -ℤ pos 1))

-- the loops over the samples: the least, the greatest, the strength and the weighted sum
abbrev pub min_from : ℕ → List ℕ → ℕ
min_from m [] = m
min_from m (x ∷ xs) = min_from (if ltb x m then x else m) xs

abbrev pub max_from : ℕ → List ℕ → ℕ
max_from m [] = m
max_from m (x ∷ xs) = max_from (if ltb m x then x else m) xs

unfoldable pub strength_from : ℕ → ℕ → List ℕ → ℕ
strength_from low sum [] = sum
strength_from low sum (x ∷ xs) = strength_from low (u32 (sum + (x - low))) xs

unfoldable pub weighted_from : ℕ → ℕ → ℕ → ℤ → List ℕ → ℤ
weighted_from low count i sum [] = sum
weighted_from low count i sum (x ∷ xs) =
    weighted_from low count (suc i) (i32 (sum +ℤ sensor_weight i count *ℤ pos (x - low))) xs

-- clamp_u16
abbrev pub clamp_u16 : ℕ → ℕ
clamp_u16 n = if ltb 65535 n then 65535 else u16 n

-- the loop of `bits_from_raw` from sample i on
abbrev raw_bits_from : ℕ → ℕ → List ℕ → ℕ
raw_bits_from threshold i [] = 0
raw_bits_from threshold i (x ∷ xs) =
    bit_or (if leb threshold x then u8 (2 ^ i) else 0) (raw_bits_from threshold (suc i) xs)

unfoldable pub bits_from_raw : ℕ → ℕ → ℕ → List ℕ → ℕ
bits_from_raw count contrast low raw =
    if count == 0 || contrast == 0
    then 0
    else raw_bits_from (u16 (low + contrast / 2)) 0 (take count raw)

-- clear_unused_raw
abbrev pub clear_unused : List ℕ → ℕ → List ℕ
clear_unused raw count = take count raw ++ replicate (max_count - count) 0

module _ {F : Type 0} ⦃f : Float F⦄ where
  unfoldable pub get_count : LineSensorConfig F → ℕ
  get_count c = elim c.array [ none ↦ clamp_count c.count | some a ↦ clamp_count a.count ]

  unfoldable pub get_alpha : LineSensorConfig F → F
  get_alpha c = if c.bias_alpha ≼ zero_f || lit 1 0 ≺ c.bias_alpha then lit 35 2 else c.bias_alpha

  abbrev pub contrast_threshold : LineSensorConfig F → ℕ
  contrast_threshold c = if c.contrast_threshold == 0 then 120 else c.contrast_threshold

  abbrev pub strength_threshold : LineSensorConfig F → ℕ
  strength_threshold c = if c.strength_threshold == 0 then 260 else c.strength_threshold

  -- a frame of zeros with this count
  abbrev pub zero_frame : ℕ → LineFrame F
  zero_frame count = record {
    raw = replicate max_count 0;
    count = count;
    bits = 0;
    min_value = 0;
    max_value = 0;
    contrast = 0;
    strength = 0;
    bias = zero_f;
    last_bias = zero_f;
    on_line = false;
  }

  unfoldable pub init : LineSensorConfig F → LineSensor F
  init c = record { config = c; frame = zero_frame (get_count c); bias_primed = false }

  unfoldable pub reset : LineSensor F → LineSensor F
  reset s = record s { frame = zero_frame (get_count s.config); bias_primed = false }

  -- where the samples come from: the callback, or the array, or nowhere
  unfoldable pub read_raw : Reader → LineSensorConfig F → List ℕ → ℕ → List ℕ
  read_raw reader c raw count = elim c.read_raw [
    | some read ↦ read raw count
    | none ↦ elim c.array [ some a ↦ array_raw reader a raw count | none ↦ raw ]
  ]

  -- the end of the update: the bias of a frame with this strength and weighted sum
  unfoldable pub track_bias : LineSensor F → ℕ → ℤ → LineSensor F
  track_bias s strength weighted =
      let frame = s.frame in
      let span = f.of_int (pos (frame.count - 1)) in
      let raw_bias = f.of_int weighted ⊘ (f.of_int (pos strength) ⊗ span) in
      let alpha = get_alpha s.config in
      let mixed = alpha ⊗ raw_bias ⊕ (lit 1 0 ⊖ alpha) ⊗ frame.bias in
      let bias = if s.bias_primed then mixed else raw_bias in
      if frame.on_line && not (strength == 0) && ltb 1 frame.count
      then record s { frame = record frame { bias = bias; last_bias = bias }; bias_primed = true }
      else record s { frame = record frame { bias = frame.last_bias } }

  unfoldable pub update : Reader → LineSensor F → LineSensor F
  update reader s =
      let count = get_count s.config in
      let raw = clear_unused (read_raw reader s.config s.frame.raw count) count in
      let samples = take count raw in
      let first = get_or raw 0 0 in
      let low = min_from first samples in
      let high = max_from first samples in
      let strength = strength_from low 0 samples in
      let weighted = weighted_from low count 0 (pos 0) samples in
      let contrast = u16 (high - low) in
      let bits = elim s.config.array as (λ a. ℕ) [
        | some a ↦ array_bits reader a
        | none ↦ bits_from_raw count contrast low raw
      ] in
      let empty = record s {
        frame = record s.frame {
          raw = replicate max_count 0;
          count = 0;
          bits = 0;
          min_value = 0;
          max_value = 0;
          contrast = 0;
          strength = 0;
          on_line = false;
        };
      } in
      let sampled = record s {
        frame = record s.frame {
          raw = raw;
          count = count;
          bits = bits;
          min_value = low;
          max_value = high;
          contrast = contrast;
          strength = clamp_u16 strength;
          on_line =
              leb (contrast_threshold s.config) contrast
              && leb (strength_threshold s.config) (clamp_u16 strength);
        };
      } in
      if count == 0 then empty else track_bias sampled strength weighted
