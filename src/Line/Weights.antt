-- ===== src/Line/Weights.antt =====
-- The sums over the samples of the line sensors: no overflow, and a bias of at most 1 in magnitude.
use native.Mathlib.Nat.{mul-le-mul_right}
use nuedc_control_car_freert.Prelude.{
  ℕ, suc, ◌+◌, ◌-◌, ◌*◌, ◌<◌, ◌≤◌, ◌≡◌, ◌∙◌, List, [], ◌∷◌, length, arith,
}
use nuedc_control_car_freert.Prelude.Int.{
  ℤ, pos, negsuc, ◌+ℤ◌, ◌*ℤ◌, ◌-ℤ◌, nat_abs, +ℤ_abs, -ℤ_parts,
}
use nuedc_control_car_freert.Prelude.Words.{u32, IsI32, i32_of_IsI32, i16_of_IsI16, IsI16}
use nuedc_control_car_freert.Line.{sensor_weight, strength_from, weighted_from}

-- every sample is a `uint16_t`
abbrev pub AllU16 : List ℕ → Type 0
AllU16 [] = Unit
AllU16 (x ∷ xs) = (x < 65536) × AllU16 xs

-- the sum of the samples above the least one
abbrev pub spread : ℕ → List ℕ → ℕ
spread low [] = 0
spread low (x ∷ xs) = (x - low) + spread low xs

spread_bound : (low : ℕ) (xs : List ℕ) → AllU16 xs → spread low xs ≤ length xs * 65536
spread_bound low [] all = omega arith
spread_bound low (x ∷ xs) (this, rest) = let others = spread_bound low xs rest in omega arith

-- With at most 16 `uint16_t` samples the strength is their exact sum above the least one.
pub strength_exact :
    (low sum : ℕ) (xs : List ℕ)
    → AllU16 xs
    → sum + length xs * 65536 < 4294967296
    → strength_from low sum xs ≡ sum + spread low xs
unfolding strength_from
strength_exact low sum [] all small = omega arith
strength_exact low sum (x ∷ xs) (this, rest) small =
    let exact : u32 (sum + (x - low)) ≡ sum + (x - low) = omega arith in
    rw exact (strength_exact low (sum + (x - low)) xs rest (omega arith) ∙ omega arith)

weight_range :
    (i count : ℕ)
    → i < count
    → count ≤ 8
    → nat_abs (pos (2 * i) -ℤ (pos count -ℤ pos 1)) ≤ count - 1
unfolding ◌-ℤ◌
weight_range i count in_range few = ground arith

weight_bound : (i count : ℕ) → i < count → count ≤ 8 → nat_abs (sensor_weight i count) ≤ count - 1
weight_bound i count in_range few =
    let one = -ℤ_parts (pos count) (pos 1) in
    let two = -ℤ_parts (pos (2 * i)) (pos count -ℤ pos 1) in
    let width = weight_range i count in_range few in
    let fits : IsI16 (pos (2 * i) -ℤ (pos count -ℤ pos 1)) = (omega arith, omega arith) in
    rw (i16_of_IsI16 _ fits) width

mul_bound : (a b v : ℕ) → a ≤ b → a * v ≤ b * v
mul_bound a b v h = mul-le-mul_right v h

product_abs : (w : ℤ) (v : ℕ) → nat_abs (w *ℤ pos v) ≡ nat_abs w * v
unfolding ◌*ℤ◌
product_abs (pos n) v = ground arith
product_abs (negsuc n) v = ground arith

weighted_bound :
    (low count i : ℕ) (sum : ℤ) (xs : List ℕ)
    → AllU16 xs
    → i + length xs ≡ count
    → count ≤ 8
    → nat_abs sum + length xs * 524288 < 2147483648
    → nat_abs (weighted_from low count i sum xs) ≤ nat_abs sum + (count - 1) * spread low xs
unfolding weighted_from
weighted_bound low count i sum [] all size few small = omega arith
weighted_bound low count i sum (x ∷ xs) (this, rest) size few small =
    let v = x - low in
    let w = sensor_weight i count in
    let weight = weight_bound i count (omega arith) few in
    let product = product_abs w v in
    let scaled = mul_bound (nat_abs w) (count - 1) v weight in
    let seven = mul_bound (count - 1) 7 v (omega arith) in
    let next = +ℤ_abs sum (w *ℤ pos v) in
    let fits : IsI32 (sum +ℤ w *ℤ pos v) = (omega arith, omega arith) in
    let others =
      weighted_bound low count (suc i) (sum +ℤ w *ℤ pos v) xs rest (omega arith) few
        (omega arith) in
    rw (i32_of_IsI32 _ fits) (omega arith)

-- Over at most 8 `uint16_t` samples, the magnitude of the weighted sum is at most the strength times
-- the number of samples less one, the product that the update divides it by for the bias; both sums
-- are taken with the wrap of their types.
weighted-strength :
    (low : ℕ) (xs : List ℕ)
    → AllU16 xs
    → length xs ≤ 8
    → nat_abs (weighted_from low (length xs) 0 (pos 0) xs)
      ≤ (length xs - 1) * strength_from low 0 xs
weighted-strength low xs all few =
    let exact = strength_exact low 0 xs all (omega arith) in
    let bound = weighted_bound low (length xs) 0 (pos 0) xs all (omega arith) few (omega arith) in
    rw exact (omega arith)
