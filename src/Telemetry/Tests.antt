-- ===== src/Telemetry/Tests.antt =====
-- Runs of the command parser and of the reports, and the theorems at concrete lines and times.
use nuedc_control_car_freert.Prelude.{
  ℕ, zero, suc, ◌≡◌, refl, true, false, List, [], ◌∷◌, ◌++◌, Option, none, some, arith, replicate,
}
use nuedc_control_car_freert.Prelude.Int.{ℤ, pos, negsuc}
use nuedc_control_car_freert.Float.Micro.{micro}
use nuedc_control_car_freert.Telemetry.Number.{strtol, atoi, read_digits}
use nuedc_control_car_freert.Telemetry.Number.Digits.{Numeral}
use nuedc_control_car_freert.Telemetry.Commands.{
  start, err_unknown, codes, handle_rate, handle_command, handle_line, on_newline, store,
  on_rx_byte,
}
use nuedc_control_car_freert.Telemetry.Commands.Lines.{
  IsPlain, AllPlain, feed, overwrite, read_line, finish,
}
use nuedc_control_car_freert.Telemetry.Commands.Duty.{
  asked, arguments, duty_line, requested, duty_roundtrip,
}
use nuedc_control_car_freert.Telemetry.Commands.Overflow.{IsReady, feed-IsReady, overlong_tail}
use nuedc_control_car_freert.Telemetry.Emit.{Bindings, Memory}
use nuedc_control_car_freert.Telemetry.Emit.Pace.{Moment, SpacedAll, reporting, tick-Spaced}

signed_number : strtol (codes " -42,7") ≡ negsuc 41
unfolding strtol read_digits
signed_number = refl

rate_command : (feed start (codes "$RATE,50" ++ 10 ∷ [])).0.period_ms ≡ 20
unfolding on_rx_byte store on_newline handle_line handle_command handle_rate atoi strtol read_digits
rate_command = refl

unknown_command : (feed start (codes "$HELLO" ++ 10 ∷ [])).1 ≡ err_unknown ∷ []
unfolding on_rx_byte store on_newline handle_line handle_command
unknown_command = refl

abbrev plus_300 : Numeral
plus_300 = record { minus = false; first = 3; others = 0 ∷ 0 ∷ [] }

abbrev minus_250 : Numeral
minus_250 = record { minus = true; first = 2; others = 5 ∷ 0 ∷ [] }

abbrev half_second : Option (ℕ × List ℕ)
half_second = some (5, 0 ∷ 0 ∷ [])

duty_roundtrip_example :
    asked (feed start (duty_line (arguments plus_300 minus_250 half_second) ++ 10 ∷ []))
    ≡ requested start.requests (pos 300) (negsuc 249) 500
duty_roundtrip_example =
    duty_roundtrip start refl refl plus_300 minus_250 half_second
      (record { first = ground arith; others = ground arith; small = ground arith })
      (record { first = ground arith; others = ground arith; small = ground arith }) (ground arith)
      (ground arith) (ground arith) (ground arith)

start-IsReady : IsReady start
start-IsReady = record {
  index = ground arith;
  size = refl;
  least = ground arith;
  most = ground arith;
}

feed-IsReady_example : IsReady (feed start (codes "$RATE,7" ++ 10 ∷ 255 ∷ [])).0
feed-IsReady_example = feed-IsReady start (codes "$RATE,7" ++ 10 ∷ 255 ∷ []) start-IsReady

replicate-AllPlain : (n c : ℕ) → IsPlain c → AllPlain (replicate n c)
replicate-AllPlain zero c h = tt
replicate-AllPlain (suc n) c h = (h, replicate-AllPlain n c h)

overlong_tail_example :
    feed start (replicate 79 b'a' ++ b'b' ∷ (codes "$STOP" ++ 10 ∷ []))
    ≡ finish (
        handle_command
          (read_line
            (record start { cmd_buf = overwrite start.cmd_buf 0 (replicate 79 b'a') })
            (codes "$STOP"))
          (codes "$STOP"))
overlong_tail_example =
    overlong_tail start (replicate 79 b'a') b'b' (codes "$STOP")
      (replicate-AllPlain 79 b'a' (ground arith)) (ground arith) (ground arith) refl (ground arith)
      refl refl

abbrev memory : Memory ℤ
memory = record { float_at = λ a. pos a; u8_at = λ a. a; u16_at = λ a. a }

abbrev at : ℕ → Option ℕ
at a = some a

abbrev chassis_bound : Bindings
chassis_bound = record {
  chassis = record {
    state = at 1;
    x_cm = at 2;
    y_cm = at 3;
    theta_rad = at 4;
    target_l = at 5;
    target_r = at 6;
    meas_l = at 7;
    meas_r = at 8;
    line_turn = at 9;
    valid = true;
  };
  line = record {
    raw = none;
    raw_count = 0;
    contrast = none;
    strength = none;
    bias = none;
    on_line = none;
    valid = false;
  };
  imu = record {
    pitch_deg = none;
    roll_deg = none;
    yaw_deg = none;
    gx_dps = none;
    gy_dps = none;
    gz_dps = none;
    ax_g = none;
    ay_g = none;
    az_g = none;
    ready = none;
    valid = false;
  };
}

abbrev at_time : ℕ → List ℕ → Moment ℤ
at_time ts bytes = record { bytes = bytes; time = ts; memory = memory; bindings = chassis_bound }

-- the third tick comes after a change of the rate to 20 Hz
abbrev moments : List (Moment ℤ)
moments =
    at_time 3 [] ∷ at_time 13 [] ∷ at_time 19 (codes "$RATE,20" ++ 10 ∷ []) ∷ at_time 63 [] ∷ []

tick-Spaced_example : SpacedAll (reporting start moments)
tick-Spaced_example = tick-Spaced start 0 moments refl (ground arith)
