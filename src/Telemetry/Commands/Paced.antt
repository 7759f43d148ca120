-- ===== src/Telemetry/Commands/Paced.antt =====
-- The clock of the reports, which no received byte changes.
use nuedc_control_car_freert.Prelude.{
  ℕ, suc, ◌+◌, ◌≡◌, refl, ◌∙◌, Bool, true, false, ◌||◌, List, [], ◌∷◌, Option, none, some, arith,
  length, set, take, drop, ◌==◌, if◌then◌else◌,
}
use nuedc_control_car_freert.Prelude.Int.{ℤ}
use nuedc_control_car_freert.Telemetry.Number.{atoi}
use nuedc_control_car_freert.Telemetry.Commands.{
  Telemetry, Reply, same_text, starts_with, codes, find, is_comma, is_line_end, cut, duty_pair,
  duty_args, handle_duty, handle_rate, handle_command, handle_line, first_line, until_nul,
  on_newline, store, on_rx_byte,
}
use nuedc_control_car_freert.Telemetry.Commands.Lines.{feed}

-- the time of the last report, and whether there has been one, are those of `t`
abbrev Paced : Telemetry → Telemetry → Type 0
Paced t u = (u.emit_primed ≡ t.emit_primed) × (u.last_emit_ms ≡ t.last_emit_ms)

record IsPaced (t : Telemetry) (r : Telemetry × List Reply) : Type 0 where
  paced : Paced t r.0

handle_rate-Paced : (t : Telemetry) (hz : ℤ) → Paced t (handle_rate t hz).0
unfolding handle_rate
handle_rate-Paced t hz = ground arith

duty_args-Paced :
    (t : Telemetry) (offset : ℕ) (args : List ℕ) (o : Option ℕ)
    → Paced t (duty_args t offset args o).0
unfolding duty_args duty_pair
duty_args-Paced t offset args none = (refl, refl)
duty_args-Paced t offset args (some i) =
    duty_pair-Paced (record t { cmd_buf = set t.cmd_buf (offset + i) 0 }) (offset + suc i)
      (take i args) (drop (suc i) args) (find is_comma (drop (suc i) args))
  where
    duty_pair-Paced :
        (t : Telemetry) (offset : ℕ) (left rest : List ℕ) (o : Option ℕ)
        → Paced t (duty_pair t offset left rest o).0
    duty_pair-Paced t offset left rest none = (refl, refl)
    duty_pair-Paced t offset left rest (some j) = (refl, refl)

if_IsPaced :
    {t : Telemetry} (b : Bool) {x y : Telemetry × List Reply}
    → IsPaced t x
    → IsPaced t y
    → IsPaced t (if b then x else y)
if_IsPaced true h k = h
if_IsPaced false h k = k

handle_command-IsPaced : (t : Telemetry) (line : List ℕ) → IsPaced t (handle_command t line)
unfolding handle_command handle_duty
handle_command-IsPaced t line =
    if_IsPaced (same_text line (codes "$START") || same_text line (codes "$RUN"))
      (record { paced = (refl, refl) })
      (if_IsPaced (same_text line (codes "$STOP")) (record { paced = (refl, refl) })
        (if_IsPaced (same_text line (codes "$PAUSE")) (record { paced = (refl, refl) })
          (if_IsPaced (same_text line (codes "$RESUME")) (record { paced = (refl, refl) })
            (if_IsPaced (starts_with (codes "$RATE,") line)
              (record { paced = handle_rate-Paced t (atoi (drop 6 line)) })
              (if_IsPaced (starts_with (codes "$RAWLINE,") line) (record { paced = (refl, refl) })
                (if_IsPaced (starts_with (codes "$RAWIMU,") line) (record { paced = (refl, refl) })
                  (if_IsPaced (starts_with (codes "$DUTY,") line)
                    (record {
                      paced = duty_args-Paced t 6 (drop 6 line) (find is_comma (drop 6 line));
                    })
                    (if_IsPaced (same_text line (codes "$IMUCAL,START"))
                      (record { paced = (refl, refl) })
                      (if_IsPaced (same_text line (codes "$IMUCAL,CANCEL"))
                        (record { paced = (refl, refl) })
                        (if_IsPaced (same_text line (codes "$DUMP"))
                          (record { paced = (refl, refl) })
                          (if_IsPaced (length line == 0) (record { paced = (refl, refl) })
                            (record { paced = (refl, refl) }))))))))))))

on_newline-Paced : (t : Telemetry) → Paced t (on_newline t).0
unfolding on_newline handle_line
on_newline-Paced t =
    let ended = record t { cmd_buf = set t.cmd_buf t.cmd_idx 0 } in
    let text = until_nul ended.cmd_buf in
    let end = find is_line_end text in
    (handle_command-IsPaced (record ended { cmd_buf = cut ended.cmd_buf 0 end })
      (first_line text end)).paced

on_rx_byte-Paced : (t : Telemetry) (byte : ℕ) → Paced t (on_rx_byte t byte).0
unfolding on_rx_byte store
on_rx_byte-Paced t byte = ground (arith, on_newline-Paced t)

-- Whatever bytes are received, the time of the last report stays, and whether there has been one.
pub feed-Paced : (t : Telemetry) (bytes : List ℕ) → Paced t (feed t bytes).0
feed-Paced t [] = (refl, refl)
feed-Paced t (b ∷ bs) =
    let (primed, last) = on_rx_byte-Paced t b in
    let (primed', last') = feed-Paced (on_rx_byte t b).0 bs in (primed' ∙ primed, last' ∙ last)
