-- ===== src/Telemetry/Commands/Overflow.antt =====
-- The bounds that the command parser keeps whatever it receives, and lines that are too long.
use nuedc_control_car_freert.Prelude.{
  ℕ, suc, ◌+◌, ◌/◌, ◌<◌, ◌≤◌, ◌≡◌, refl, ap, ◌∙◌, Bool, true, false, ◌⊎◌, ◌||◌, List, [], ◌∷◌, ◌++◌,
  Option, none, some, arith, length, set, take, drop, length-set, ◌==◌, if◌then◌else◌,
}
use nuedc_control_car_freert.Prelude.Int.{ℤ, pos, pos_part, ◌≤ℤ◌}
use nuedc_control_car_freert.Telemetry.{Requests}
use nuedc_control_car_freert.Telemetry.Number.{atoi}
use nuedc_control_car_freert.Telemetry.Commands.{
  Telemetry, Reply, same_text, starts_with, ok_rate, err_rate, codes, find, is_comma, is_line_end,
  cut, duty_pair, duty_args, handle_duty, handle_rate, handle_command, handle_line, first_line,
  until_nul, on_newline, store, on_rx_byte,
}
use nuedc_control_car_freert.Telemetry.Commands.Lines.{
  IsPlain, AllPlain, feed, overwrite, length-overwrite, typed_fresh, read_line, finish, feed_plain,
  feed_line,
}

-- the index is a place of the buffer, which keeps its size, and the period is from 1 to 1000 ms
pub record IsReady (t : Telemetry) : Type 0 where
  pub index : t.cmd_idx < 80
  pub size : length t.cmd_buf ≡ 80
  pub least : 1 ≤ t.period_ms
  pub most : t.period_ms ≤ 1000

-- the buffer and the period that a change keeps within these bounds
abbrev Keeps : ℕ → Telemetry → Type 0
Keeps i t = (t.cmd_idx ≡ i) × (length t.cmd_buf ≡ 80) × (1 ≤ t.period_ms) × (t.period_ms ≤ 1000)

cut_size : (buf : List ℕ) (offset : ℕ) (o : Option ℕ) → length (cut buf offset o) ≡ length buf
cut_size buf offset none = refl
cut_size buf offset (some i) = length-set buf (offset + i) 0

handle_rate-Keeps : (i : ℕ) (t : Telemetry) (hz : ℤ) → Keeps i t → Keeps i (handle_rate t hz).0
unfolding handle_rate
handle_rate-Keeps i t hz h = ground arith

duty_pair-Keeps :
    (i : ℕ) (t : Telemetry) (offset : ℕ) (left rest : List ℕ) (o : Option ℕ)
    → Keeps i t
    → Keeps i (duty_pair t offset left rest o).0
unfolding duty_pair
duty_pair-Keeps i t offset left rest none h = h
duty_pair-Keeps i t offset left rest (some j) (index, size, least, most) =
    (index, length-set t.cmd_buf (offset + j) 0 ∙ size, least, most)

duty_args-Keeps :
    (i : ℕ) (t : Telemetry) (offset : ℕ) (args : List ℕ) (o : Option ℕ)
    → Keeps i t
    → Keeps i (duty_args t offset args o).0
unfolding duty_args
duty_args-Keeps i t offset args none h = h
duty_args-Keeps i t offset args (some j) (index, size, least, most) =
    duty_pair-Keeps i (record t { cmd_buf = set t.cmd_buf (offset + j) 0 }) (offset + suc j)
      (take j args) (drop (suc j) args) (find is_comma (drop (suc j) args))
      (index, length-set t.cmd_buf (offset + j) 0 ∙ size, least, most)

record IsKept (i : ℕ) (r : Telemetry × List Reply) : Type 0 where
  kept : Keeps i r.0

if_IsKept :
    {i : ℕ} (b : Bool) {x y : Telemetry × List Reply}
    → IsKept i x
    → IsKept i y
    → IsKept i (if b then x else y)
if_IsKept true h k = h
if_IsKept false h k = k

handle_command-IsKept :
    (i : ℕ) (t : Telemetry) (line : List ℕ) → Keeps i t → IsKept i (handle_command t line)
unfolding handle_command handle_duty
handle_command-IsKept i t line h =
    let rate : IsKept i (handle_rate t (atoi (drop 6 line))) = record {
      kept = handle_rate-Keeps i t (atoi (drop 6 line)) h;
    } in
    let duty : IsKept i (handle_duty t 6 (drop 6 line)) = record {
      kept = duty_args-Keeps i t 6 (drop 6 line) (find is_comma (drop 6 line)) h;
    } in
    if_IsKept (same_text line (codes "$START") || same_text line (codes "$RUN"))
      (record { kept = h })
      (if_IsKept (same_text line (codes "$STOP")) (record { kept = h })
        (if_IsKept (same_text line (codes "$PAUSE")) (record { kept = h })
          (if_IsKept (same_text line (codes "$RESUME")) (record { kept = h })
            (if_IsKept (starts_with (codes "$RATE,") line) rate (
              if_IsKept (starts_with (codes "$RAWLINE,") line) (record { kept = h })
                (if_IsKept (starts_with (codes "$RAWIMU,") line) (record { kept = h })
                  (if_IsKept (starts_with (codes "$DUTY,") line) duty (
                    if_IsKept (same_text line (codes "$IMUCAL,START")) (record { kept = h })
                      (if_IsKept (same_text line (codes "$IMUCAL,CANCEL")) (record { kept = h })
                        (if_IsKept (same_text line (codes "$DUMP")) (record { kept = h })
                          (if_IsKept (length line == 0) (record { kept = h })
                            (record { kept = h }))))))))))))

handle_line-Keeps : (i : ℕ) (t : Telemetry) → Keeps i t → Keeps i (handle_line t).0
unfolding handle_line
handle_line-Keeps i t (index, size, least, most) =
    let text = until_nul t.cmd_buf in
    let end = find is_line_end text in
    (handle_command-IsKept i (record t { cmd_buf = cut t.cmd_buf 0 end }) (first_line text end)
      (index, cut_size t.cmd_buf 0 end ∙ size, least, most)).kept

on_newline-IsReady : (t : Telemetry) → IsReady t → IsReady (on_newline t).0
unfolding on_newline
on_newline-IsReady t h =
    let cleared = record t { cmd_buf = set t.cmd_buf t.cmd_idx 0 } in
    let (index, size, least, most) =
      handle_line-Keeps t.cmd_idx cleared
        (refl, length-set t.cmd_buf t.cmd_idx 0 ∙ h.size, h.least, h.most) in
    record { index = omega arith; size = size; least = least; most = most }

store-IsReady : (t : Telemetry) (byte : ℕ) → IsReady t → IsReady (store t byte)
unfolding store
store-IsReady t byte h = record {
  index = ground arith;
  size = ground (arith, length-set t.cmd_buf t.cmd_idx byte, h.size);
  least = ground arith;
  most = ground arith;
}

request_IsReady : (t : Telemetry) (r : Requests) → IsReady t → IsReady (record t { requests = r })
request_IsReady t r h = record { index = h.index; size = h.size; least = h.least; most = h.most }

on_rx_byte-IsReady : (t : Telemetry) (byte : ℕ) → IsReady t → IsReady (on_rx_byte t byte).0
unfolding on_rx_byte
on_rx_byte-IsReady t byte h = ground (
  arith,
  request_IsReady t (record t.requests { start = true }) h,
  request_IsReady t (record t.requests { stop = true }) h,
  on_newline-IsReady t h,
  store-IsReady t byte h,
)

-- Whatever bytes are received, the index of the command buffer stays below 80, so that every write
-- falls into the buffer, the buffer keeps its 80 places, and the period between reports stays from
-- 1 to 1000 ms.
pub feed-IsReady : (t : Telemetry) (bytes : List ℕ) → IsReady t → IsReady (feed t bytes).0
feed-IsReady t [] h = h
feed-IsReady t (b ∷ bs) h = feed-IsReady (on_rx_byte t b).0 bs (on_rx_byte-IsReady t b h)

lost_byte :
    (t : Telemetry) (c : ℕ)
    → IsPlain c
    → 79 ≤ t.cmd_idx
    → on_rx_byte t c ≡ (record t { cmd_idx = 0 }, [])
unfolding on_rx_byte store
lost_byte t c plain full = ground arith

-- A line of 79 plain characters fills the buffer: the next plain character empties it and is lost,
-- and the rest of the line, up to 79 plain characters, is then carried out as a command of its own.
pub overlong_tail :
    (t : Telemetry) (cs : List ℕ) (c : ℕ) (tail : List ℕ)
    → AllPlain cs
    → IsPlain c
    → AllPlain tail
    → length cs ≡ 79
    → length tail ≤ 79
    → length t.cmd_buf ≡ 80
    → t.cmd_idx ≡ 0
    → feed t (cs ++ c ∷ (tail ++ 10 ∷ []))
      ≡ finish
          (handle_command (read_line (record t { cmd_buf = overwrite t.cmd_buf 0 cs }) tail) tail)
overlong_tail t cs c tail plain pc ptail full short size fresh =
    let rest = c ∷ (tail ++ 10 ∷ []) in
    let full_buffer = record t { cmd_buf = overwrite t.cmd_buf 0 cs; cmd_idx = length cs } in
    feed_plain t cs rest plain (omega arith)
    ∙ ap (λ u. feed u rest) (typed_fresh t cs fresh)
    ∙ rw (lost_byte full_buffer c pc (omega arith)) refl
    ∙ feed_line (record full_buffer { cmd_idx = 0 }) tail ptail short
        (length-overwrite t.cmd_buf 0 cs ∙ size) refl

-- Whatever the line `$RATE,` is followed by, the command either takes a rate from 1 to 500 Hz, sets
-- the period to 1000 divided by it and changes nothing else, or answers with the error and changes
-- nothing at all.
rate_outcomes :
    (t : Telemetry) (hz : ℤ)
    → ((1 ≤ pos_part hz)
        × (pos_part hz ≤ 500)
        × (handle_rate t hz ≡ (record t { period_ms = 1000 / pos_part hz }, ok_rate hz ∷ [])))
      ⊎ (((hz ≤ℤ pos 0) ⊎ (pos 501 ≤ℤ hz)) × (handle_rate t hz ≡ (t, err_rate ∷ [])))
unfolding handle_rate
rate_outcomes t hz = ground arith
