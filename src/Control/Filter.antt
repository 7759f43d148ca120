-- ===== src/Control/Filter.antt =====
-- common/filter.c: a first-order low-pass filter and a moving average of up to 16 samples. `int32_t`
-- values are integers, `i32` the wrap of a sum; the division by a zero length is left as the
-- language has it, for the C code has no meaning there.
pub mod Window
use nuedc_control_car_freert.Prelude.{
  ℕ, ◌+◌, ◌%◌, Bool, true, false, List, if◌then◌else◌, ltb, get_or, set, replicate,
}
use nuedc_control_car_freert.Prelude.Int.{ℤ, pos, ◌+ℤ◌, ◌-ℤ◌}
use nuedc_control_car_freert.Prelude.Words.{u8, i32}
use nuedc_control_car_freert.Float.{Float, ◌⊕◌, ◌⊖◌, ◌⊗◌, lit, zero_f}

-- `LPF1_t`
pub record LowPass (F : Type 0) : Type 0 where
  pub alpha : F
  pub y : F
  pub primed : Bool

module _ {F : Type 0} ⦃f : Float F⦄ where
  unfoldable pub lpf1_init : F → LowPass F
  lpf1_init alpha = record { alpha = alpha; y = zero_f; primed = false }

  unfoldable pub lpf1_update : LowPass F → F → LowPass F × F
  lpf1_update l x =
      let mixed = l.alpha ⊗ x ⊕ (lit 1 0 ⊖ l.alpha) ⊗ l.y in
      if l.primed then (record l { y = mixed }, mixed) else (record l { y = x; primed = true }, x)

-- `SMA_t`
pub record MovingAverage : Type 0 where
  pub buf : List ℤ
  pub idx : ℕ
  pub len : ℕ
  pub sum : ℤ

unfoldable pub sma_init : ℕ → MovingAverage
sma_init len = record {
  buf = replicate 16 (pos 0);
  idx = 0;
  len = if ltb 16 len then 16 else len;
  sum = pos 0;
}

-- the update up to its last line; the result is `sum / len`
unfoldable pub sma_update : MovingAverage → ℤ → MovingAverage
sma_update s x = record s {
  sum = i32 (i32 (s.sum -ℤ get_or s.buf s.idx (pos 0)) +ℤ x);
  buf = set s.buf s.idx x;
  idx = u8 ((s.idx + 1) % s.len);
}
