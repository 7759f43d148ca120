-- ===== src/Prelude/Words.antt =====
-- Fixed-width integers: an unsigned value is a number below 2 ^ w, kept so by `%`; a conversion to
-- int16_t or int32_t takes the value modulo 2 ^ w into the signed range, as the compiler does.
use nuedc_control_car_freert.Prelude.{
  ℕ, ◌+◌, ◌-◌, ◌%◌, ◌^◌, ◌≤◌, ◌<◌, ◌≡◌, arith, ltb, if◌then◌else◌,
}
use nuedc_control_car_freert.Prelude.Int.{ℤ, pos, negsuc, pos_part, neg_part}

abbrev pub u8 : ℕ → ℕ
u8 n = n % 2 ^ 8

abbrev pub u16 : ℕ → ℕ
u16 n = n % 2 ^ 16

abbrev pub u32 : ℕ → ℕ
u32 n = n % 2 ^ 32

-- (uint32_t)(a - b)
abbrev pub sub32 : ℕ → ℕ → ℕ
sub32 a b = (a % 2 ^ 32 + 2 ^ 32 - b % 2 ^ 32) % 2 ^ 32

-- the bit pattern of an integer in w = 2 ^ k values, `m` being 2 ^ k
abbrev pub to_word : ℕ → ℤ → ℕ
to_word m (pos n) = n % m
to_word m (negsuc n) = m - 1 - n % m

-- the integer that a bit pattern below 2 ^ 16 (2 ^ 32) stands for
abbrev pub signed16 : ℕ → ℤ
signed16 w = if ltb w (2 ^ 15) then pos w else negsuc (2 ^ 16 - w - 1)

abbrev pub signed32 : ℕ → ℤ
signed32 w = if ltb w (2 ^ 31) then pos w else negsuc (2 ^ 32 - w - 1)

abbrev pub signed64 : ℕ → ℤ
signed64 w = if ltb w (2 ^ 63) then pos w else negsuc (2 ^ 64 - w - 1)

-- (int16_t)z, (int32_t)z and (int64_t)z
abbrev pub i16 : ℤ → ℤ
i16 z = signed16 (to_word (2 ^ 16) z)

abbrev pub i32 : ℤ → ℤ
i32 z = signed32 (to_word (2 ^ 32) z)

abbrev pub i64 : ℤ → ℤ
i64 z = signed64 (to_word (2 ^ 64) z)

abbrev pub IsI32 : ℤ → Type 0
IsI32 z = (pos_part z < 2 ^ 31) × (neg_part z ≤ 2 ^ 31)

abbrev pub IsI64 : ℤ → Type 0
IsI64 z = (pos_part z < 2 ^ 63) × (neg_part z ≤ 2 ^ 63)

pub i32_of_IsI32 : (z : ℤ) → IsI32 z → i32 z ≡ z
i32_of_IsI32 z h = ground arith

pub i64_of_IsI64 : (z : ℤ) → IsI64 z → i64 z ≡ z
i64_of_IsI64 z h = ground arith

abbrev pub IsI16 : ℤ → Type 0
IsI16 z = (pos_part z < 2 ^ 15) × (neg_part z ≤ 2 ^ 15)

pub i16_of_IsI16 : (z : ℤ) → IsI16 z → i16 z ≡ z
i16_of_IsI16 z h = ground arith

pub i16-IsI16 : (z : ℤ) → IsI16 (i16 z)
i16-IsI16 (pos n) = ground arith
i16-IsI16 (negsuc n) = ground arith
