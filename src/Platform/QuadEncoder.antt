-- ===== src/Platform/QuadEncoder.antt =====
-- drv_quad_encoder.c: a polled quadrature decoder.
pub mod Gray
use nuedc_control_car_freert.Prelude.{
  ℕ, ◌+◌, ◌*◌, ◌%◌, Bool, true, false, List, [], ◌∷◌, get_or, if◌then◌else◌,
}
use nuedc_control_car_freert.Prelude.Int.{ℤ, pos, negsuc, ◌+ℤ◌, ◌*ℤ◌}
use nuedc_control_car_freert.Prelude.Words.{i32, i64}
use nuedc_control_car_freert.Platform.{Reader}
use nuedc_control_car_freert.Platform.Gpio
use nuedc_control_car_freert.Platform.Gpio.{GpioPin}
use nuedc_control_car_freert.Platform.HBridge.{is_zero}

pub record QuadEncoderConfig : Type 0 where
  pub phase_a : GpioPin
  pub phase_b : GpioPin
  pub direction : ℤ

pub record QuadEncoder : Type 0 where
  pub config : QuadEncoderConfig
  pub last_state : ℕ
  pub delta : ℤ
  pub total : ℤ

abbrev pub bit : Bool → ℕ
bit b = if b then 1 else 0

-- (a << 1) | b for two bits
abbrev pub join_bits : Bool → Bool → ℕ
join_bits a b = bit a * 2 + bit b

unfoldable pub read_state : Reader → QuadEncoderConfig → ℕ
read_state read_pins c =
    join_bits (Gpio.read_raw read_pins c.phase_a) (Gpio.read_raw read_pins c.phase_b)

abbrev pub table : List ℤ
table =
    pos 0
    ∷ pos 1
    ∷ negsuc 0
    ∷ pos 0
    ∷ negsuc 0
    ∷ pos 0
    ∷ pos 0
    ∷ pos 1
    ∷ pos 1
    ∷ pos 0
    ∷ pos 0
    ∷ negsuc 0
    ∷ pos 0
    ∷ negsuc 0
    ∷ pos 1
    ∷ pos 0
    ∷ []

-- table[((last & 3) << 2) | (cur & 3)]
unfoldable pub decode_step : ℕ → ℕ → ℤ
decode_step last cur = get_or table (last % 4 * 4 + cur % 4) (pos 0)

unfoldable pub init : Reader → QuadEncoderConfig → QuadEncoder
init read_pins c =
    let d : ℤ = if is_zero c.direction then pos 1 else c.direction in
    record {
      config = record c { direction = d };
      last_state = read_state read_pins c;
      delta = pos 0;
      total = pos 0;
    }

unfoldable pub poll : Reader → QuadEncoder → QuadEncoder
poll read_pins e =
    let cur = read_state read_pins e.config in
    let step = decode_step e.last_state cur *ℤ e.config.direction in
    record e { last_state = cur; delta = i32 (e.delta +ℤ step); total = i64 (e.total +ℤ step) }

unfoldable pub get_delta : QuadEncoder → QuadEncoder × ℤ
get_delta e = (record e { delta = pos 0 }, e.delta)

unfoldable pub get_total : QuadEncoder → ℤ
get_total e = e.total

unfoldable pub reset : Reader → QuadEncoder → QuadEncoder
reset read_pins e = record e {
  delta = pos 0;
  total = pos 0;
  last_state = read_state read_pins e.config;
}
