-- ===== src/Float.antt =====
-- Single-precision arithmetic, which the language does not define: the operations that the firmware
-- uses are a parameter, an instance of `Float`. `IsFloat` lists the few facts that the theorems rest
-- on. Each holds of IEEE 754 with NaN, infinities and rounding: comparisons with NaN are false.
pub mod Micro
use nuedc_control_car_freert.Prelude.{ℕ, ◌≤◌, ◌<◌, ◌≡◌, ◌⊎◌, Bool, true, false}
use nuedc_control_car_freert.Prelude.Int.{ℤ}

pub record Float (F : Type 0) : Type 0 where
  -- the literal m * 10 ^ -k
  pub lit : ℕ → ℕ → F
  pub add : F → F → F
  pub sub : F → F → F
  pub mul : F → F → F
  pub div : F → F → F
  pub neg : F → F
  pub lt : F → F → Bool
  pub le : F → F → Bool
  -- fabsf, fmaxf, sinf, cosf, sqrtf, asinf, atan2f
  pub abs : F → F
  pub max : F → F → F
  pub sin : F → F
  pub cos : F → F
  pub sqrt : F → F
  pub asin : F → F
  pub atan2 : F → F → F
  -- (float)z and (int16_t)x
  pub of_int : ℤ → F
  pub to_i16 : F → ℤ

module _ {F : Type 0} ⦃f : Float F⦄ where
  infixl 65 ◌⊕◌ ◌⊖◌
  infixl 70 ◌⊗◌ ◌⊘◌
  infix 50 ◌≺◌ ◌≼◌
  abbrev pub ◌⊕◌ : F → F → F
  a ⊕ b = f.add a b

  abbrev pub ◌⊖◌ : F → F → F
  a ⊖ b = f.sub a b

  abbrev pub ◌⊗◌ : F → F → F
  a ⊗ b = f.mul a b

  abbrev pub ◌⊘◌ : F → F → F
  a ⊘ b = f.div a b

  abbrev pub ◌≺◌ : F → F → Bool
  a ≺ b = f.lt a b

  abbrev pub ◌≼◌ : F → F → Bool
  a ≼ b = f.le a b

  abbrev pub lit : ℕ → ℕ → F
  lit m k = f.lit m k

  -- 0.0f
  abbrev pub zero_f : F
  zero_f = f.lit 0 0

  abbrev pub neg : F → F
  neg a = f.neg a

  abbrev pub abs : F → F
  abs a = f.abs a

  abbrev pub fmax : F → F → F
  fmax a b = f.max a b

pub record IsFloat (F : Type 0) ⦃f : Float F⦄ : Type 0 where
  pub lt_irrefl : (a : F) → f.lt a a ≡ false
  pub lt_trans : (a b c : F) → f.lt a b ≡ true → f.lt b c ≡ true → f.lt a c ≡ true
  pub lt_le_trans : (a b c : F) → f.lt a b ≡ true → f.le b c ≡ true → f.lt a c ≡ true
  pub lt-le : (a b : F) → f.lt a b ≡ true → f.le a b ≡ true
  -- a < b excludes b <= a
  pub lt-not-le : (a b : F) → f.lt a b ≡ true → f.le b a ≡ false
  pub lit_pos : (m k : ℕ) → 0 < m → k ≤ 20 → f.lt (f.lit 0 0) (f.lit m k) ≡ true
  pub abs_nonneg : (a : F) → f.lt (f.abs a) (f.lit 0 0) ≡ false
  pub max_cases : (a b : F) → (f.max a b ≡ a) ⊎ (f.max a b ≡ b)
  pub div_nonneg :
      (a b : F)
      → f.lt a (f.lit 0 0) ≡ false
      → f.lt (f.lit 0 0) b ≡ true
      → f.lt (f.div a b) (f.lit 0 0) ≡ false
  pub neg_below : (a : F) → f.lt a (f.lit 0 0) ≡ false → f.lt a (f.neg a) ≡ false
