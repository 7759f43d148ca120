-- ===== src/Telemetry/Number/Digits.antt =====
-- The conversions on a text of decimal digits.
use nuedc_control_car_freert.Prelude.{
  ℕ, ◌+◌, ◌-◌, ◌*◌, ◌^◌, ◌<◌, ◌≡◌, refl, ◌∙◌, ap, Bool, true, false, List, [], ◌∷◌, arith,
  if◌then◌else◌,
}
use nuedc_control_car_freert.Prelude.Int.{ℤ, pos, neg_ℤ}
use nuedc_control_car_freert.Telemetry.Number.{
  is_digit, skip_space, read_digits, sign, strtol, strtoul,
}

abbrev pub AllDigits : List ℕ → Type 0
AllDigits [] = Unit
AllDigits (d ∷ ds) = (d < 10) × AllDigits ds

-- the number that digits stand for, after those of `acc`
abbrev pub value_from : ℕ → List ℕ → ℕ
value_from acc [] = acc
value_from acc (d ∷ ds) = value_from (acc * 10 + d) ds

abbrev pub chars : List ℕ → List ℕ
chars [] = []
chars (d ∷ ds) = (48 + d) ∷ chars ds

-- a number as it is written: a minus sign or none, the first digit and the others
pub record Numeral : Type 0 where
  pub minus : Bool
  pub first : ℕ
  pub others : List ℕ

abbrev pub magnitude : Numeral → ℕ
magnitude n = value_from n.first n.others

abbrev pub value : Numeral → ℤ
value n = if n.minus then neg_ℤ (pos (magnitude n)) else pos (magnitude n)

abbrev pub text : Numeral → List ℕ
text n = if n.minus then b'-' ∷ (48 + n.first) ∷ chars n.others else (48 + n.first) ∷ chars n.others

pub record IsNumeral (n : Numeral) : Type 0 where
  pub first : n.first < 10
  pub others : AllDigits n.others
  pub small : magnitude n < 2 ^ 31

read_digits_lem :
    (acc : ℕ) (ds : List ℕ) → AllDigits ds → read_digits acc (chars ds) ≡ value_from acc ds
unfolding read_digits
read_digits_lem acc [] all = refl
read_digits_lem acc (d ∷ ds) (this, rest) =
    let digit : is_digit (48 + d) ≡ true = ground arith in
    let same : 48 + d - 48 ≡ d = omega arith in
    rw (digit, same) (read_digits_lem (acc * 10 + d) ds rest)

read_first :
    (d : ℕ) (ds : List ℕ)
    → d < 10
    → AllDigits ds
    → read_digits 0 ((48 + d) ∷ chars ds) ≡ value_from d ds
read_first d ds this rest =
    read_digits_lem 0 (d ∷ ds) (this, rest) ∙ ap (λ a. value_from a ds) (omega arith)

unsigned_head :
    (d : ℕ) (cs : List ℕ) → d < 10 → sign (skip_space ((48 + d) ∷ cs)) ≡ (false, (48 + d) ∷ cs)
unsigned_head d cs h = ground arith

strtol_signed :
    (minus : Bool) (d : ℕ) (ds : List ℕ)
    → d < 10
    → AllDigits ds
    → value_from d ds < 2 ^ 31
    → strtol (if minus then b'-' ∷ (48 + d) ∷ chars ds else (48 + d) ∷ chars ds)
      ≡ (if minus then neg_ℤ (pos (value_from d ds)) else pos (value_from d ds))
unfolding strtol
strtol_signed true d ds this rest small = rw (read_first d ds this rest) (ground arith)
strtol_signed false d ds this rest small =
    rw (unsigned_head d (chars ds) this, read_first d ds this rest) (ground arith)

-- `strtol` reads a written number below 2^31 in magnitude as its value.
pub strtol-text : (n : Numeral) → IsNumeral n → strtol (text n) ≡ value n
strtol-text n h = strtol_signed n.minus n.first n.others h.first h.others h.small

pub strtoul-text :
    (d : ℕ) (ds : List ℕ)
    → d < 10
    → AllDigits ds
    → value_from d ds < 2 ^ 32
    → strtoul ((48 + d) ∷ chars ds) ≡ value_from d ds
unfolding strtoul
strtoul-text d ds this rest small =
    rw (unsigned_head d (chars ds) this, read_first d ds this rest) (ground arith)
