-- ===== src/Encoder.antt =====
-- modules/encoder/bsp_encoder.c: the two wheel encoders, decoded in the GPIO interrupt. Each wheel's
-- static variables are one record; `reader` stands for `DL_GPIO_readPins` at the time of the call.
-- The DriverLib set-up calls of `BSP_Encoder_Init` and the interrupt masking are left out: an
-- operation here is one step, as the masking makes it.
pub mod Counting
mod Tests
use nuedc_control_car_freert.Prelude.{
  ℕ, ◌+◌, ◌*◌, ◌^◌, ◌%◌, Bool, true, false, not, List, [], ◌∷◌, ◌==◌, if◌then◌else◌, bit_and,
  bit_or,
}
use nuedc_control_car_freert.Prelude.Int.{ℤ, pos, ◌+ℤ◌, ◌-ℤ◌}
use nuedc_control_car_freert.Prelude.Words.{u8, u32, i32, i64}
use nuedc_control_car_freert.Platform.{Reader}
use nuedc_control_car_freert.Platform.QuadEncoder.{decode_step, join_bits}

-- The addresses and pin masks that pin_map.h gives for one wheel.
pub record EncoderPins : Type 0 where
  pub port : ℕ
  pub a_pin : ℕ
  pub b_pin : ℕ

-- s_left_… or s_right_…
pub record Wheel : Type 0 where
  pub last_state : ℕ
  pub poll_state : ℕ
  pub seen_mask : ℕ
  pub change_count : ℕ
  pub total : ℤ
  pub reported : ℤ

pub record Encoders : Type 0 where
  pub left : Wheel
  pub right : Wheel

unfoldable pub encoder_state : Reader → EncoderPins → ℕ
encoder_state reader p =
    let pins = reader p.port (bit_or p.a_pin p.b_pin) in
    join_bits (not (bit_and pins p.a_pin == 0)) (not (bit_and pins p.b_pin == 0))

-- (uint8_t)(1u << state)
abbrev pub state_mask : ℕ → ℕ
state_mask s = u8 (2 ^ s)

-- what `BSP_Encoder_Init` and `BSP_Encoder_Reset` leave in a wheel that stands at state `s`
abbrev pub fresh : ℕ → Wheel
fresh s = record {
  last_state = s;
  poll_state = s;
  seen_mask = state_mask s;
  change_count = 0;
  total = pos 0;
  reported = pos 0;
}

unfoldable pub init : Reader → EncoderPins → EncoderPins → Encoders
init reader l r = record {
  left = fresh (encoder_state reader l);
  right = fresh (encoder_state reader r);
}

unfoldable pub poll_wheel : ℕ → Wheel → Wheel
poll_wheel s w =
    let seen = bit_or w.seen_mask (state_mask s) in
    if s == w.poll_state
    then record w { seen_mask = seen }
    else record w { seen_mask = seen; change_count = u32 (w.change_count + 1); poll_state = s }

unfoldable pub poll : Reader → EncoderPins → EncoderPins → Encoders → Encoders
unfolding poll_wheel
poll reader l r e = record {
  left = poll_wheel (encoder_state reader l) e.left;
  right = poll_wheel (encoder_state reader r) e.right;
}

-- one branch of `BSP_Encoder_GetDelta`
unfoldable pub take_delta : Wheel → Wheel × ℤ
take_delta w = (record w { reported = w.total }, i32 (i64 (w.total -ℤ w.reported)))

unfoldable pub get_delta : Encoders → ℕ → Encoders × ℤ
unfolding take_delta
get_delta e ch =
    if ch == 0
    then (record e { left = (take_delta e.left).0 }, (take_delta e.left).1)
    else (record e { right = (take_delta e.right).0 }, (take_delta e.right).1)

unfoldable pub get_total : Encoders → ℕ → ℤ
get_total e ch = if ch == 0 then e.left.total else e.right.total

unfoldable pub reset : Reader → EncoderPins → EncoderPins → Encoders → ℕ → Encoders
reset reader l r e ch =
    if ch == 0
    then record e { left = fresh (encoder_state reader l) }
    else record e { right = fresh (encoder_state reader r) }

unfoldable pub get_raw_state : Encoders → ℕ → ℕ
get_raw_state e ch = if ch == 0 then e.left.poll_state else e.right.poll_state

unfoldable pub get_seen_mask : Encoders → ℕ → ℕ
get_seen_mask e ch = if ch == 0 then e.left.seen_mask else e.right.seen_mask

unfoldable pub get_change_count : Encoders → ℕ → ℕ
get_change_count e ch = if ch == 0 then e.left.change_count else e.right.change_count

-- one branch of `GROUP1_IRQHandler`, the wheel being sampled at `s`
unfoldable pub on_edge : ℕ → Wheel → Wheel
on_edge s w = record w { total = i64 (w.total +ℤ decode_step w.last_state s); last_state = s }

-- `pending` is what `DL_GPIO_getEnabledInterruptStatus` returns.
unfoldable pub group1_irq : Reader → EncoderPins → EncoderPins → ℕ → Encoders → Encoders
unfolding on_edge
group1_irq reader l r pending e =
    let left_hit = not (bit_and pending (bit_or l.a_pin l.b_pin) == 0) in
    let right_hit = not (bit_and pending (bit_or r.a_pin r.b_pin) == 0) in
    record {
      left = if left_hit then on_edge (encoder_state reader l) e.left else e.left;
      right = if right_hit then on_edge (encoder_state reader r) e.right else e.right;
    }
