-- ===== src/Telemetry/Number.antt =====
-- The decimal conversions of the C library that the command parser uses, for a 32-bit `long`:
-- strtol(s, 0, 10), strtoul(s, 0, 10) and atoi. A text is the list of its characters.
pub mod Digits
use nuedc_control_car_freert.Prelude.{
  ℕ, ◌+◌, ◌-◌, ◌*◌, ◌^◌, ◌%◌, Bool, true, false, ◌&&◌, ◌||◌, List, [], ◌∷◌, ltb, leb, ◌==◌,
  if◌then◌else◌,
}
use nuedc_control_car_freert.Prelude.Int.{ℤ, pos, negsuc}

-- isspace
abbrev pub is_space : ℕ → Bool
is_space c = c == 32 || (leb 9 c && leb c 13)

abbrev pub is_digit : ℕ → Bool
is_digit c = leb 48 c && leb c 57

abbrev pub skip_space : List ℕ → List ℕ
skip_space [] = []
skip_space (c ∷ cs) = let rest = skip_space cs in if is_space c then rest else c ∷ cs

-- the value of the digits at the head of a text, after those already read
unfoldable pub read_digits : ℕ → List ℕ → ℕ
read_digits acc [] = acc
read_digits acc (c ∷ cs) =
    let rest = read_digits (acc * 10 + (c - 48)) cs in if is_digit c then rest else acc

-- an optional sign, and what follows it
abbrev pub sign : List ℕ → Bool × List ℕ
sign [] = (false, [])
sign (c ∷ cs) = if c == b'-' then (true, cs) else if c == b'+' then (false, cs) else (false, c ∷ cs)

unfoldable pub strtol : List ℕ → ℤ
strtol s =
    let (minus, digits) = sign (skip_space s) in
    let n = read_digits 0 digits in
    if minus
    then (if n == 0 then pos 0 else if ltb (2 ^ 31) n then negsuc (2 ^ 31 - 1) else negsuc (n - 1))
    else if ltb n (2 ^ 31)
    then pos n
    else pos (2 ^ 31 - 1)

unfoldable pub strtoul : List ℕ → ℕ
strtoul s =
    let (minus, digits) = sign (skip_space s) in
    let n = read_digits 0 digits in
    if leb (2 ^ 32) n then 2 ^ 32 - 1 else if minus then (2 ^ 32 - n) % 2 ^ 32 else n

unfoldable pub atoi : List ℕ → ℤ
atoi s = strtol s
