-- ===== src/Float/Micro.antt =====
-- A concrete arithmetic that meets the laws: integers in units of 10 ^ -30. It serves the runs and the
-- instances of the theorems; the firmware's arithmetic is the abstract one.
use nuedc_control_car_freert.Prelude.{
  ℕ, zero, suc, ◌+◌, ◌-◌, ◌*◌, ◌/◌, ◌^◌, ◌<◌, ◌≡◌, Bool, true, false, not, arith, lt→ltb, leb,
  if◌then◌else◌,
}
use nuedc_control_car_freert.Prelude.Int.{ℤ, pos, negsuc, ◌+ℤ◌, ◌-ℤ◌, ltb_ℤ, neg_ℤ, nat_abs}
use nuedc_control_car_freert.Prelude.Words.{i16}
use nuedc_control_car_freert.Float.{Float, IsFloat}

abbrev pub scale : ℕ
scale = 10 ^ 30

-- the integer of this sign and magnitude
abbrev pub signed : Bool → ℕ → ℤ
signed minus n = if minus then neg_ℤ (pos n) else pos n

abbrev pub is_neg : ℤ → Bool
is_neg z = ltb_ℤ z (pos 0)

abbrev opposite : ℤ → ℤ → Bool
opposite a b = if is_neg a then not (is_neg b) else is_neg b

-- the greatest root that is found bit by bit
abbrev root_from : ℕ → ℕ → ℕ → ℕ
root_from zero r n = r
root_from (suc k) r n =
    let next = r + 2 ^ k in let best = if leb (next * next) n then next else r in root_from k best n

instance abbrev pub micro : Float ℤ
micro = record {
  lit = λ m k. pos (m * 10 ^ (30 - k));
  add = λ a b. a +ℤ b;
  sub = λ a b. a -ℤ b;
  mul = λ a b. signed (opposite a b) (nat_abs a * nat_abs b / scale);
  div = λ a b. signed (opposite a b) (nat_abs a * scale / nat_abs b);
  neg = neg_ℤ;
  lt = ltb_ℤ;
  le = λ a b. not (ltb_ℤ b a);
  abs = λ a. pos (nat_abs a);
  max = λ a b. if ltb_ℤ a b then b else a;
  sin = λ a. a;
  cos = λ a. pos scale;
  sqrt = λ a. pos (root_from 110 0 (nat_abs a * scale));
  asin = λ a. a;
  atan2 = λ y x. y;
  of_int = λ z. signed (is_neg z) (nat_abs z * scale);
  to_i16 = λ a. i16 (signed (is_neg a) (nat_abs a / scale));
}

ten_power_pos : (n : ℕ) → 0 < 10 ^ n
ten_power_pos zero = omega arith
ten_power_pos (suc n) = let rest = ten_power_pos n in omega arith

product_pos : (m n : ℕ) → 0 < m → 0 < n → 0 < m * n + 0
product_pos zero n p q = omega arith
product_pos (suc m) zero p q = omega arith
product_pos (suc m) (suc n) p q = omega arith

literal_pos : (m n : ℕ) → 0 < m → ltb_ℤ (pos 0) (pos (m * 10 ^ n)) ≡ true
literal_pos m n p = lt→ltb 0 _ (product_pos m (10 ^ n) p (ten_power_pos n))

quotient_nonneg :
    (a b : ℤ)
    → ltb_ℤ a (pos 0) ≡ false
    → ltb_ℤ (pos 0) b ≡ true
    → ltb_ℤ (signed (opposite a b) (nat_abs a * scale / nat_abs b)) (pos 0) ≡ false
quotient_nonneg (pos a) (pos b) p q = ground arith
quotient_nonneg (pos a) (negsuc b) p q = ground arith
quotient_nonneg (negsuc a) b p q = ground arith

-- This arithmetic meets the laws.
pub micro-IsFloat : IsFloat ℤ
micro-IsFloat = record {
  lt_irrefl = λ a. ground arith;
  lt_trans = λ a b c p q. ground arith;
  lt_le_trans = λ a b c p q. ground arith;
  lt-le = λ a b p. ground arith;
  lt-not-le = λ a b p. ground arith;
  lit_pos = λ m k p q. literal_pos m (30 - k) p;
  abs_nonneg = λ a. ground arith;
  max_cases = λ a b. ground arith;
  div_nonneg = λ a b p q. quotient_nonneg a b p q;
  neg_below = λ a p. ground arith;
}
