-- ===== src/Telemetry/Commands.antt =====
-- modules/telemetry/telemetry.c: the byte buffer and the command parser. A reply stands for one call
-- of `BSP_Uart_Printf`, with the values that it prints. A character is its code, and the buffer is
-- the whole array `s_cmd_buf`, in which the parser puts zeros where it splits a line.
pub mod Lines
pub mod Duty
pub mod Overflow
pub mod Paced
use Prim.Native.Char.{code}
use Prim.Native.String.{String}
use nuedc_control_car_freert.Prelude.{
  ℕ, zero, suc, ◌+◌, ◌-◌, ◌/◌, Bool, true, false, ◌&&◌, ◌||◌, not, List, [], ◌∷◌, Option, none,
  some, ltb, leb, ◌==◌, if◌then◌else◌, set, take, drop, length, replicate,
}
use nuedc_control_car_freert.Prelude.Int.{ℤ, pos, negsuc, pos_part, ltb_ℤ}
use nuedc_control_car_freert.Prelude.Words.{u8, u16, i16}
use nuedc_control_car_freert.Telemetry.{
  Requests, DutyRequest, ImuCalRequest, cal_none, cal_start, cal_cancel,
}
use nuedc_control_car_freert.Telemetry.Number.{strtol, strtoul, atoi}

-- CMD_BUF_LEN
abbrev pub cmd_buf_len : ℕ
cmd_buf_len = 80

-- the static variables of the file but the bindings
pub record Telemetry : Type 0 where
  pub requests : Requests
  pub period_ms : ℕ
  pub last_emit_ms : ℕ
  pub emit_primed : Bool
  pub enabled : Bool
  pub raw_line_enabled : Bool
  pub raw_imu_enabled : Bool
  pub cmd_buf : List ℕ
  pub cmd_idx : ℕ

-- their values at the start
abbrev pub start : Telemetry
start = record {
  requests = record {
    start = false;
    stop = false;
    duty_pending = false;
    imu_cal = cal_none;
    duty = record { left_pwm = pos 0; right_pwm = pos 0; hold_ms = 0 };
  };
  period_ms = 10;
  last_emit_ms = 0;
  emit_primed = false;
  enabled = true;
  raw_line_enabled = false;
  raw_imu_enabled = false;
  cmd_buf = replicate 80 0;
  cmd_idx = 0;
}

pub data Reply : Type 0 where
  ok_start ok_stop ok_pause ok_resume : Reply
  ok_rate : ℤ → Reply
  err_rate : Reply
  ok_raw_line ok_raw_imu : Bool → Reply
  ok_duty : ℤ → ℤ → ℕ → Reply
  err_duty : Reply
  ok_imu_cal_start ok_imu_cal_cancel : Reply
  cfg_rate : ℕ → Reply
  cfg_enabled cfg_raw_line cfg_raw_imu : Bool → Reply
  err_unknown : Reply

-- the characters of a literal
abbrev pub codes : String → List ℕ
codes String.[] = []
codes (String.◌∷◌ c s) = code c ∷ codes s

-- the text that starts an array and that a zero ends
abbrev pub until_nul : List ℕ → List ℕ
until_nul [] = []
until_nul (c ∷ cs) = let rest = until_nul cs in if c == 0 then [] else c ∷ rest

-- !strcmp(a, b), and !strncmp(line, prefix, strlen(prefix))
abbrev pub same_text : List ℕ → List ℕ → Bool
same_text [] [] = true
same_text [] (b ∷ bs) = false
same_text (a ∷ as') [] = false
same_text (a ∷ as') (b ∷ bs) = a == b && same_text as' bs

abbrev pub starts_with : List ℕ → List ℕ → Bool
starts_with [] line = true
starts_with (p ∷ ps) [] = false
starts_with (p ∷ ps) (c ∷ cs) = p == c && starts_with ps cs

-- the place of the first character of a kind: of `strchr(s, ',')`, and of the end of a line
abbrev pub find : (ℕ → Bool) → List ℕ → Option ℕ
find test [] = none
find test (c ∷ cs) =
    let rest = elim (find test cs) as (λ o. Option ℕ) [ none ↦ none | some i ↦ some (suc i) ] in
    if test c then some 0 else rest

abbrev pub is_comma : ℕ → Bool
is_comma c = c == b','

abbrev pub is_line_end : ℕ → Bool
is_line_end c = c == 13 || c == 10

-- a place from some offset on, if there is one, set to zero
abbrev pub cut : List ℕ → ℕ → Option ℕ → List ℕ
cut buf offset none = buf
cut buf offset (some i) = set buf (offset + i) 0

abbrev pub request_duty : Telemetry → ℤ → ℤ → ℕ → Telemetry × List Reply
request_duty t left right hold = (
  record t {
    requests = record t.requests {
      duty_pending = true;
      duty = record { left_pwm = left; right_pwm = right; hold_ms = hold };
    };
  },
  ok_duty left right hold ∷ [],
)

-- `handle_duty` at the second comma of its arguments, which lie `offset` into the buffer
unfoldable pub duty_pair : Telemetry → ℕ → List ℕ → List ℕ → Option ℕ → Telemetry × List Reply
duty_pair t offset left rest none = request_duty t (i16 (strtol left)) (i16 (strtol rest)) 800
duty_pair t offset left rest (some j) =
    request_duty (record t { cmd_buf = set t.cmd_buf (offset + j) 0 }) (i16 (strtol left))
      (i16 (strtol (take j rest))) (strtoul (drop (suc j) rest))

-- `handle_duty` at the first comma
unfoldable pub duty_args : Telemetry → ℕ → List ℕ → Option ℕ → Telemetry × List Reply
unfolding duty_pair
duty_args t offset args none = (t, err_duty ∷ [])
duty_args t offset args (some i) =
    let rest = drop (suc i) args in
    duty_pair (record t { cmd_buf = set t.cmd_buf (offset + i) 0 }) (offset + suc i) (take i args)
      rest (find is_comma rest)

unfoldable pub handle_duty : Telemetry → ℕ → List ℕ → Telemetry × List Reply
unfolding duty_args
handle_duty t offset args = duty_args t offset args (find is_comma args)

-- the branch `$RATE,`
unfoldable pub handle_rate : Telemetry → ℤ → Telemetry × List Reply
handle_rate t hz =
    let period = u16 (1000 / pos_part hz) in
    if ltb_ℤ (pos 0) hz && not (ltb_ℤ (pos 500) hz)
    then (record t { period_ms = if period == 0 then 1 else period }, ok_rate hz ∷ [])
    else (t, err_rate ∷ [])

-- atoi(s) ? 1u : 0u
abbrev pub flag : List ℕ → Bool
flag s = elim (atoi s) [ pos n ↦ not (n == 0) | negsuc n ↦ true ]

-- the chain of tests in `handle_line`, on a line without its end
unfoldable pub handle_command : Telemetry → List ℕ → Telemetry × List Reply
handle_command t line =
    if same_text line (codes "$START") || same_text line (codes "$RUN")
    then (record t { requests = record t.requests { start = true } }, ok_start ∷ [])
    else if same_text line (codes "$STOP")
    then (record t { requests = record t.requests { stop = true } }, ok_stop ∷ [])
    else if same_text line (codes "$PAUSE")
    then (record t { enabled = false }, ok_pause ∷ [])
    else if same_text line (codes "$RESUME")
    then (record t { enabled = true }, ok_resume ∷ [])
    else if starts_with (codes "$RATE,") line
    then handle_rate t (atoi (drop 6 line))
    else if starts_with (codes "$RAWLINE,") line
    then (record t { raw_line_enabled = flag (drop 9 line) }, ok_raw_line (flag (drop 9 line)) ∷ [])
    else if starts_with (codes "$RAWIMU,") line
    then (record t { raw_imu_enabled = flag (drop 8 line) }, ok_raw_imu (flag (drop 8 line)) ∷ [])
    else if starts_with (codes "$DUTY,") line
    then handle_duty t 6 (drop 6 line)
    else if same_text line (codes "$IMUCAL,START")
    then (record t { requests = record t.requests { imu_cal = cal_start } }, ok_imu_cal_start ∷ [])
    else if same_text line (codes "$IMUCAL,CANCEL")
    then (
      record t { requests = record t.requests { imu_cal = cal_cancel } },
      ok_imu_cal_cancel ∷ [],
    )
    else if same_text line (codes "$DUMP")
    then (
      t,
      cfg_rate t.period_ms
          ∷ cfg_enabled t.enabled
          ∷ cfg_raw_line t.raw_line_enabled
          ∷ cfg_raw_imu t.raw_imu_enabled
          ∷ [],
    )
    else if length line == 0
    then (t, [])
    else (t, err_unknown ∷ [])

-- the line as far as its end
abbrev pub first_line : List ℕ → Option ℕ → List ℕ
first_line text none = text
first_line text (some p) = take p text

unfoldable pub handle_line : Telemetry → Telemetry × List Reply
handle_line t =
    let text = until_nul t.cmd_buf in
    let end = find is_line_end text in
    handle_command (record t { cmd_buf = cut t.cmd_buf 0 end }) (first_line text end)

-- `byte == '\n'`
unfoldable pub on_newline : Telemetry → Telemetry × List Reply
on_newline t =
    let (after, replies) = handle_line (record t { cmd_buf = set t.cmd_buf t.cmd_idx 0 }) in
    (record after { cmd_idx = 0 }, replies)

-- what is done with a character of a line
unfoldable pub store : Telemetry → ℕ → Telemetry
store t byte =
    if ltb t.cmd_idx (cmd_buf_len - 1)
    then record t { cmd_buf = set t.cmd_buf t.cmd_idx byte; cmd_idx = u8 (t.cmd_idx + 1) }
    else record t { cmd_idx = 0 }

unfoldable pub on_rx_byte : Telemetry → ℕ → Telemetry × List Reply
on_rx_byte t byte =
    if byte == b's'
    then (record t { requests = record t.requests { start = true } }, [])
    else if byte == b'x'
    then (record t { requests = record t.requests { stop = true } }, [])
    else if byte == 10
    then on_newline t
    else if byte == 13
    then (t, [])
    else (store t byte, [])
