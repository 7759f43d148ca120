-- ===== src/Control/Filter/Window.antt =====
-- The moving average of common/filter.c: its running sum is the sum of the samples it holds.
use nuedc_control_car_freert.Prelude.{
  ℕ, zero, suc, ◌+◌, ◌*◌, ◌%◌, ◌^◌, ◌<◌, ◌≤◌, ◌≡◌, refl, ◌∙◌, sym, List, [], ◌∷◌, length, get_or,
  set, length-set, replicate, arith,
}
use nuedc_control_car_freert.Prelude.Int.{ℤ, pos, ◌+ℤ◌, ◌-ℤ◌, nat_abs, int_laws, +ℤ_abs, -ℤ_abs}
use nuedc_control_car_freert.Prelude.Words.{u8, i32, IsI32, i32_of_IsI32}
use nuedc_control_car_freert.Control.Filter.{MovingAverage, sma_init, sma_update}

-- the largest magnitude of a sample with which 16 of them do not overflow an `int32_t`
abbrev pub sample_max : ℕ
sample_max = 100000000

abbrev pub total : List ℤ → ℤ
total [] = pos 0
total (x ∷ xs) = x +ℤ total xs

-- every sample is small enough
abbrev pub AllSmall : List ℤ → Type 0
AllSmall [] = Unit
AllSmall (x ∷ xs) = (nat_abs x ≤ sample_max) × AllSmall xs

total_bound : (xs : List ℤ) → AllSmall xs → nat_abs (total xs) ≤ length xs * sample_max
total_bound [] small = omega arith
total_bound (x ∷ xs) (this, rest) =
    let first = +ℤ_abs x (total xs) in let others = total_bound xs rest in omega arith

get_or-AllSmall : (xs : List ℤ) (i : ℕ) → AllSmall xs → nat_abs (get_or xs i (pos 0)) ≤ sample_max
get_or-AllSmall [] i small = omega arith
get_or-AllSmall (x ∷ xs) zero (this, rest) = this
get_or-AllSmall (x ∷ xs) (suc i) (this, rest) = get_or-AllSmall xs i rest

set-AllSmall :
    (xs : List ℤ) (i : ℕ) (v : ℤ) → AllSmall xs → nat_abs v ≤ sample_max → AllSmall (set xs i v)
set-AllSmall [] i v small h = small
set-AllSmall (x ∷ xs) zero v (this, rest) h = (h, rest)
set-AllSmall (x ∷ xs) (suc i) v (this, rest) h = (this, set-AllSmall xs i v rest h)

total-set :
    (xs : List ℤ) (i : ℕ) (v : ℤ)
    → i < length xs
    → total (set xs i v) ≡ total xs -ℤ get_or xs i (pos 0) +ℤ v
total-set [] i v h = absurd (omega arith)
total-set (x ∷ xs) zero v h = omega int_laws
total-set (x ∷ xs) (suc i) v h = rw (total-set xs i v (omega arith)) (omega int_laws)

pub record IsValid (s : MovingAverage) : Type 0 where
  pub size : length s.buf ≡ 16
  pub some : 0 < s.len
  pub len : s.len ≤ 16
  pub idx : s.idx < s.len
  pub small : AllSmall s.buf
  pub sum : s.sum ≡ total s.buf

next_idx : (i len : ℕ) → 0 < len → len ≤ 16 → u8 ((i + 1) % len) < len
next_idx i len some small = omega arith

small_IsI32 : (z : ℤ) (n : ℕ) → nat_abs z ≤ n → n < 2 ^ 31 → IsI32 z
small_IsI32 z n h small = (omega arith, omega arith)

step_sum :
    (s : MovingAverage) (x : ℤ)
    → IsValid s
    → nat_abs x ≤ sample_max
    → i32 (i32 (s.sum -ℤ get_or s.buf s.idx (pos 0)) +ℤ x) ≡ total (set s.buf s.idx x)
step_sum s x v h =
    let old = get_or s.buf s.idx (pos 0) in
    let all = total_bound s.buf v.small in
    let size = v.size in
    let one = get_or-AllSmall s.buf s.idx v.small in
    let less = -ℤ_abs (total s.buf) old in
    let more = +ℤ_abs (total s.buf -ℤ old) x in
    let first = small_IsI32 (total s.buf -ℤ old) 2000000000 (omega arith) (omega arith) in
    let second = small_IsI32 (total s.buf -ℤ old +ℤ x) 2000000000 (omega arith) (omega arith) in
    rw (v.sum, i32_of_IsI32 _ first, i32_of_IsI32 _ second, total-set s.buf s.idx x (omega arith))
      refl

zeros : (n : ℕ) → AllSmall (replicate n (pos 0)) × (total (replicate n (pos 0)) ≡ pos 0)
zeros zero = (tt, refl)
zeros (suc n) = let (small, sum) = zeros n in (((omega arith), small), rw sum (omega int_laws))

-- For samples of at most 10^8 in magnitude, an update keeps the sum equal to the sum of the stored
-- samples and the index inside the window, so that no sum wraps and no access is out of bounds.
sma_update-IsValid :
    (s : MovingAverage) (x : ℤ) → IsValid s → nat_abs x ≤ sample_max → IsValid (sma_update s x)
unfolding sma_update
sma_update-IsValid s x v h = record {
  size = length-set s.buf s.idx x ∙ v.size;
  some = v.some;
  len = v.len;
  idx = next_idx s.idx s.len v.some v.len;
  small = set-AllSmall s.buf s.idx x v.small h;
  sum = step_sum s x v h;
}

-- The window starts valid for every length but 0.
pub sma_init-IsValid : (len : ℕ) → 0 < len → IsValid (sma_init len)
unfolding sma_init
sma_init-IsValid len h = record {
  size = refl;
  some = ground arith;
  len = ground arith;
  idx = ground arith;
  small = (zeros 16).0;
  sum = sym (zeros 16).1;
}
