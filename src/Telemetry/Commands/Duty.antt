-- ===== src/Telemetry/Commands/Duty.antt =====
-- The command `$DUTY,<left>,<right>,<hold>`: what the commas split, and what is asked for.
use nuedc_control_car_freert.Prelude.{
  ℕ, suc, ◌^◌, ◌<◌, ◌≤◌, ◌≡◌, ◌≢◌, refl, ap, ◌∙◌, true, false, List, [], ◌∷◌, ◌++◌, Option, none,
  some, arith, length, take, drop, if◌then◌else◌,
}
use nuedc_control_car_freert.Prelude.Int.{ℤ}
use nuedc_control_car_freert.Prelude.Words.{i16, IsI16, i16_of_IsI16}
use nuedc_control_car_freert.Telemetry.{Requests}
use nuedc_control_car_freert.Telemetry.Number.{strtol, strtoul}
use nuedc_control_car_freert.Telemetry.Number.Digits.{
  AllDigits, value_from, chars, Numeral, value, text, IsNumeral, strtol-text, strtoul-text,
}
use nuedc_control_car_freert.Telemetry.Commands.{
  Telemetry, Reply, ok_duty, err_duty, codes, find, is_comma, duty_pair, duty_args, handle_duty,
  handle_command,
}
use nuedc_control_car_freert.Telemetry.Commands.Lines.{AllPlain, feed, read_line, feed_line}

abbrev pub NoComma : List ℕ → Type 0
NoComma [] = Unit
NoComma (c ∷ cs) = (c ≢ b',') × NoComma cs

find-none : (cs : List ℕ) → NoComma cs → find is_comma cs ≡ none
find-none [] h = refl
find-none (c ∷ cs) (this, rest) = rw (find-none cs rest) (ground arith)

find-comma : (cs rest : List ℕ) → NoComma cs → find is_comma (cs ++ b',' ∷ rest) ≡ some (length cs)
find-comma [] rest h = refl
find-comma (c ∷ cs) rest (this, others) = rw (find-comma cs rest others) (ground arith)

take-append : (cs rest : List ℕ) → take (length cs) (cs ++ rest) ≡ cs
take-append [] rest = refl
take-append (c ∷ cs) rest = ap (λ l. c ∷ l) (take-append cs rest)

drop-append : (cs : List ℕ) (c : ℕ) (rest : List ℕ) → drop (suc (length cs)) (cs ++ c ∷ rest) ≡ rest
drop-append [] c rest = refl
drop-append (b ∷ cs) c rest = drop-append cs c rest

chars-NoComma : (ds : List ℕ) → AllDigits ds → NoComma (chars ds)
chars-NoComma [] h = tt
chars-NoComma (d ∷ ds) (this, rest) = (omega arith, chars-NoComma ds rest)

text-NoComma : (n : Numeral) → IsNumeral n → NoComma (text n)
text-NoComma n h =
    let digits = chars-NoComma (n.first ∷ n.others) (h.first, h.others) in
    elim n.minus
      as (λ b.
        NoComma (if b then b'-' ∷ chars (n.first ∷ n.others) else chars (n.first ∷ n.others))) [
          | true ↦ (omega arith, digits)
          | false ↦ digits
        ]

-- the digits of the hold time, which may be left out
abbrev pub Hold : Type 0
Hold = Option (ℕ × List ℕ)

abbrev pub hold_ms : Hold → ℕ
hold_ms none = 800
hold_ms (some (d, ds)) = value_from d ds

abbrev pub IsHold : Hold → Type 0
IsHold none = Unit
IsHold (some (d, ds)) = (d < 10) × AllDigits ds × (value_from d ds < 2 ^ 32)

-- the arguments, with a comma between them
abbrev pub arguments : Numeral → Numeral → Hold → List ℕ
arguments l r none = text l ++ b',' ∷ text r
arguments l r (some (d, ds)) = text l ++ b',' ∷ (text r ++ b',' ∷ chars (d ∷ ds))

-- what a command asks for, and what it answers
abbrev pub asked : Telemetry × List Reply → Requests × List Reply
asked (t, replies) = (t.requests, replies)

abbrev pub requested : Requests → ℤ → ℤ → ℕ → Requests × List Reply
requested r left right hold = (
  record r {
    duty_pending = true;
    duty = record { left_pwm = left; right_pwm = right; hold_ms = hold };
  },
  ok_duty left right hold ∷ [],
)

split_three :
    (t : Telemetry) (offset : ℕ) (a b hold : List ℕ)
    → NoComma a
    → NoComma b
    → asked (handle_duty t offset (a ++ b',' ∷ (b ++ b',' ∷ hold)))
      ≡ requested t.requests (i16 (strtol a)) (i16 (strtol b)) (strtoul hold)
unfolding handle_duty duty_args duty_pair
split_three t offset a b hold ha hb =
    let rest = b ++ b',' ∷ hold in
    rw
      (
        find-comma a rest ha,
        drop-append a b',' rest,
        take-append a (b',' ∷ rest),
        find-comma b hold hb,
        take-append b (b',' ∷ hold),
        drop-append b b',' hold,
      )
      refl

-- without the third argument
split_two :
    (t : Telemetry) (offset : ℕ) (a b : List ℕ)
    → NoComma a
    → NoComma b
    → asked (handle_duty t offset (a ++ b',' ∷ b))
      ≡ requested t.requests (i16 (strtol a)) (i16 (strtol b)) 800
unfolding handle_duty duty_args duty_pair
split_two t offset a b ha hb =
    rw (find-comma a b ha, drop-append a b',' b, take-append a (b',' ∷ b), find-none b hb) refl

all-++ : (as' bs : List ℕ) → AllPlain as' → AllPlain bs → AllPlain (as' ++ bs)
all-++ [] bs h k = k
all-++ (a ∷ as') bs (this, rest) k = (this, all-++ as' bs rest k)

chars-AllPlain : (ds : List ℕ) → AllDigits ds → AllPlain (chars ds)
chars-AllPlain [] h = tt
chars-AllPlain (d ∷ ds) (this, rest) = (ground arith, chars-AllPlain ds rest)

text-AllPlain : (n : Numeral) → IsNumeral n → AllPlain (text n)
text-AllPlain n h =
    let digits = chars-AllPlain (n.first ∷ n.others) (h.first, h.others) in
    elim n.minus
      as (λ b.
        AllPlain (if b then b'-' ∷ chars (n.first ∷ n.others) else chars (n.first ∷ n.others))) [
          | true ↦ (ground arith, digits)
          | false ↦ digits
        ]

arguments-AllPlain :
    (l r : Numeral) (hold : Hold)
    → IsNumeral l
    → IsNumeral r
    → IsHold hold
    → AllPlain (arguments l r hold)
arguments-AllPlain l r none hl hr hh =
    all-++ (text l) (b',' ∷ text r) (text-AllPlain l hl) (ground arith, text-AllPlain r hr)
arguments-AllPlain l r (some (d, ds)) hl hr (digit, digits, small) =
    all-++ (text l) (b',' ∷ (text r ++ b',' ∷ chars (d ∷ ds))) (text-AllPlain l hl) (
      ground arith,
      all-++ (text r) (b',' ∷ chars (d ∷ ds)) (text-AllPlain r hr)
          (ground arith, chars-AllPlain (d ∷ ds) (digit, digits)),
    )

handle_duty-arguments :
    (t : Telemetry) (offset : ℕ) (l r : Numeral) (hold : Hold)
    → IsNumeral l
    → IsNumeral r
    → IsHold hold
    → asked (handle_duty t offset (arguments l r hold))
      ≡ requested t.requests (i16 (value l)) (i16 (value r)) (hold_ms hold)
handle_duty-arguments t offset l r none hl hr hh =
    split_two t offset (text l) (text r) (text-NoComma l hl) (text-NoComma r hr)
    ∙ rw (strtol-text l hl, strtol-text r hr) refl
handle_duty-arguments t offset l r (some (d, ds)) hl hr (digit, digits, small) =
    split_three t offset (text l) (text r) (chars (d ∷ ds)) (text-NoComma l hl) (text-NoComma r hr)
    ∙ rw (strtol-text l hl, strtol-text r hr, strtoul-text d ds digit digits small) refl

-- the line, without its end
abbrev pub duty_line : List ℕ → List ℕ
duty_line args = codes "$DUTY," ++ args

handle_command_duty :
    (t : Telemetry) (args : List ℕ) → handle_command t (duty_line args) ≡ handle_duty t 6 args
unfolding handle_command
handle_command_duty t args = refl

prefix-AllPlain : AllPlain (codes "$DUTY,")
prefix-AllPlain = ground arith

module _ (t : Telemetry) (size : length t.cmd_buf ≡ 80) (fresh : t.cmd_idx ≡ 0) where
  fed :
      (args : List ℕ)
      → AllPlain args
      → length args ≤ 73
      → asked (feed t (duty_line args ++ 10 ∷ []))
        ≡ asked (handle_duty (read_line t (duty_line args)) 6 args)
  unfolding handle_command
  fed args plain short = ap asked (
      feed_line t (duty_line args) (all-++ (codes "$DUTY,") args prefix-AllPlain plain)
        (omega arith) size fresh)

  -- A line `$DUTY,<left>,<right>,<hold>` of decimal numbers, or the same without the hold time,
  -- that is at most 79 characters long, received at the start of the command buffer and ended by a
  -- newline, leaves exactly one duty request, with the two numbers as they were written (both in
  -- the range of int16_t) and the hold time (800 ms where it is left out, below 2^32 otherwise),
  -- changes no other request, and answers with the values it took.
  pub duty_roundtrip :
      (l r : Numeral) (hold : Hold)
      → IsNumeral l
      → IsNumeral r
      → IsHold hold
      → IsI16 (value l)
      → IsI16 (value r)
      → length (arguments l r hold) ≤ 73
      → asked (feed t (duty_line (arguments l r hold) ++ 10 ∷ []))
        ≡ requested t.requests (value l) (value r) (hold_ms hold)
  duty_roundtrip l r hold hl hr hh sl sr short =
      let args = arguments l r hold in
      fed args (arguments-AllPlain l r hold hl hr hh) short
      ∙ handle_duty-arguments (read_line t (duty_line args)) 6 l r hold hl hr hh
      ∙ rw (i16_of_IsI16 (value l) sl, i16_of_IsI16 (value r) sr) refl

  -- A `$DUTY,` line with no comma in its argument is answered with the error and leaves every
  -- request as it was.
  duty_without_comma :
      (args : List ℕ)
      → AllPlain args
      → NoComma args
      → length args ≤ 73
      → asked (feed t (duty_line args ++ 10 ∷ [])) ≡ (t.requests, err_duty ∷ [])
  unfolding handle_duty duty_args
  duty_without_comma args plain clean short = fed args plain short ∙ rw (find-none args clean) refl
