-- ===== src/Display/Tests.antt =====
-- Runs of the display driver, on a controller that is busy for a while after each start.
use nuedc_control_car_freert.Prelude.{
  ℕ, zero, suc, ◌+◌, ◌-◌, ◌*◌, ◌≤◌, ◌<◌, ◌≡◌, refl, true, false, List, [], ◌∷◌, ◌++◌, some, arith,
  length, ◌==◌, if◌then◌else◌, ap,
}
use nuedc_control_car_freert.Platform.I2c.{I2cLib, I2cStatus, I2cBus, read_reg8}
use nuedc_control_car_freert.Platform.I2c.Outcomes.{IsReadOutcome, read_reg8_ends}
use nuedc_control_car_freert.Display.{
  Display, set_cursor, write_command_list, write_chunks, write_packet, send_packet, wait_until_idle,
  wait_while, write_chars, write_char, write_data_list, glyph, normalize_char, control_command,
  init_commands, cursor_commands, write_string, write_string_padded, init,
}
use nuedc_control_car_freert.Display.Packets.{packets}
use nuedc_control_car_freert.Display.Sending.{IsTraced, Sends}
use nuedc_control_car_freert.Display.Text.{
  string_packets, padded_packets, write_string_padded-Sends,
}
use nuedc_control_car_freert.Display.Pages.{clear_packets}
use nuedc_control_car_freert.Display.Waits.{IsReady}
use nuedc_control_car_freert.Display.Ready.{text_shown, init_shown}
use nuedc_control_car_freert.Display.Cells.{SendsData, text_fits}

-- what is in the FIFO, what was sent, and how often the status is still read before the transfer is over
record Wire : Type 0 where
  fifo : List ℕ
  sent : List (List ℕ)
  left : ℕ

abbrev status_at : ℕ → I2cStatus
status_at zero = record { busy = false; idle = true; error = false; busy_bus = false }
status_at (suc n) = record { busy = true; idle = false; error = false; busy_bus = true }

abbrev wire_lib : I2cLib Wire
wire_lib = record {
  status = λ w. (record w { left = w.left - 1 }, status_at w.left);
  reset_transfer = λ w. w;
  disable = λ w. w;
  enable = λ w. w;
  flush_tx = λ w. record w { fifo = [] };
  fill_tx = λ w bytes. (record w { fifo = w.fifo ++ bytes }, length bytes);
  start_tx =
      λ w address n. record { fifo = []; sent = w.sent ++ (w.fifo ∷ []); left = 9 * (n + 1) };
  rx_empty = λ w. (w, false);
  receive = λ w. (w, 42);
  update_reg = λ w register value mask. w;
  fields = record {
    saddr_ofs = 1;
    direction_rx = 1;
    msa_mask = 255;
    mblen_ofs = 16;
    burstrun = 1;
    start = 2;
    rd_on_txempty = 8;
    stop = 4;
    mctr_mask = 255;
  };
}

abbrev start_wire : Wire
start_wire = record { fifo = []; sent = []; left = 0 }

abbrev oled : Display
oled = record { i2c = 1; address = 60 }

wire-IsReady : IsReady wire_lib (λ w. w.left)
wire-IsReady = record {
  over = λ v h. ap status_at h;
  running = λ v h. is_running v.left h;
  polled = λ v. omega arith;
  started = λ v address n h few. omega arith;
  flushed = λ v h. h;
  filled = λ v bytes h. h;
  takes = λ v bytes h few. refl;
  disabled = λ v. omega arith;
  reset = λ v. omega arith;
  enabled = λ v. omega arith;
}
  where
    is_running : (n : ℕ) → 0 < n → (status_at n).idle ≡ false
    is_running zero h = absurd (omega arith)
    is_running (suc n) h = refl

wire-IsTraced : IsTraced wire_lib oled.address (λ w. w.fifo) (λ w. w.sent)
wire-IsTraced = record {
  look = λ v. refl;
  reset = λ v. refl;
  disable = λ v. refl;
  enable = λ v. refl;
  flush = λ v. (refl, refl);
  fill = λ v bytes. refl;
  filled = λ v bytes h e. ap (λ l. l ++ bytes) h;
  start = λ v n h. refl;
}

-- "A" in the second row
abbrev text_a : List ℕ
text_a = 65 ∷ []

text_a_sent :
    (write_string wire_lib oled start_wire 1 2 (some text_a)).0.sent
    ≡ (0 ∷ 177 ∷ 12 ∷ 16 ∷ []) ∷ (64 ∷ 126 ∷ 17 ∷ 17 ∷ 17 ∷ 126 ∷ 0 ∷ []) ∷ []
unfolding write_string set_cursor write_command_list write_chunks write_packet send_packet
    wait_until_idle wait_while cursor_commands write_chars write_char write_data_list glyph
    normalize_char
text_a_sent = refl

text_shown_example :
    let plain = write_string wire_lib oled start_wire 1 2 (some text_a) in
    let padded = write_string_padded wire_lib oled start_wire 1 2 (some text_a) in
    ((plain.1 ≡ true) × (plain.0.sent ≡ string_packets 1 2 text_a))
    × (padded.1 ≡ true)
    × (padded.0.sent ≡ padded_packets 1 2 text_a)
text_shown_example =
    text_shown wire_lib oled (λ w. w.left) wire-IsReady refl (λ w. w.fifo) (λ w. w.sent)
      wire-IsTraced start_wire 1 2 text_a (omega arith) (omega arith) (omega arith)

init_shown_example :
    let o = init wire_lib start_wire 1 60 in
    (o.2 ≡ true) × (o.1.sent ≡ packets control_command init_commands ++ clear_packets 8 0)
init_shown_example =
    init_shown wire_lib oled (λ w. w.left) wire-IsReady refl (λ w. w.fifo) (λ w. w.sent)
      wire-IsTraced start_wire (omega arith)

-- the text is longer than the rest of the row
abbrev long_text : List ℕ
long_text = 72 ∷ 101 ∷ 108 ∷ 108 ∷ 111 ∷ []

-- a controller whose FIFO takes no glyph
abbrev broken_lib : I2cLib Wire
broken_lib = record wire_lib {
  fill_tx = λ w bytes.
      (record w { fifo = w.fifo ++ bytes }, if length bytes == 7 then 3 else length bytes);
}

broken-IsTraced : IsTraced broken_lib oled.address (λ w. w.fifo) (λ w. w.sent)
broken-IsTraced = record {
  look = λ v. refl;
  reset = λ v. refl;
  disable = λ v. refl;
  enable = λ v. refl;
  flush = λ v. (refl, refl);
  fill = λ v bytes. refl;
  filled = λ v bytes h e. ap (λ l. l ++ bytes) h;
  start = λ v n h. refl;
}

write_string_padded-Sends_example :
    Sends broken_lib oled
      (λ w. w.fifo)
      (λ w. w.sent)
      broken-IsTraced
      start_wire
      (write_string_padded broken_lib oled start_wire 0 18 (some long_text))
      (padded_packets 0 18 long_text)
write_string_padded-Sends_example =
    write_string_padded-Sends broken_lib oled (λ w. w.fifo) (λ w. w.sent) broken-IsTraced start_wire
      0 18 long_text

text_fits_example :
    SendsData broken_lib oled
      (λ w. w.fifo)
      (λ w. w.sent)
      broken-IsTraced
      start_wire
      (write_string broken_lib oled start_wire 7 19 (some long_text))
      7
      19
      (λ n. 114 + n ≤ 126)
    × SendsData broken_lib oled
        (λ w. w.fifo)
        (λ w. w.sent)
        broken-IsTraced
        start_wire
        (write_string_padded broken_lib oled start_wire 7 19 (some long_text))
        7
        19
        (λ n. 114 + n ≡ 126)
text_fits_example =
    text_fits broken_lib oled (λ w. w.fifo) (λ w. w.sent) broken-IsTraced start_wire 7 19 long_text
      (omega arith) (omega arith)

abbrev sensor_bus : I2cBus
sensor_bus = record { inst = 1; wait_limit = 0; tx_fifo_bytes = 0 }

read_reg8_ends_example :
    IsReadOutcome wire_lib sensor_bus start_wire 3
      (read_reg8 wire_lib sensor_bus start_wire 104 117 3)
read_reg8_ends_example = read_reg8_ends wire_lib sensor_bus start_wire 104 117 3
