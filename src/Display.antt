-- ===== src/Display.antt =====
-- modules/display/ssd1306_mspm0.c: text on the display, over the I2C controller as a parameter (I2cLib
-- of Platform/I2c.antt). A function gives the controller after it and what it returned. A text is the
-- list of its characters before the terminating 0, as codes, or none for the null pointer.
pub mod Font
pub mod Packets
pub mod Sending
pub mod Text
pub mod Pages
pub mod Waits
pub mod Ready
pub mod Cells
mod Tests
use nuedc_control_car_freert.Prelude.{
  ℕ, zero, suc, ◌+◌, ◌-◌, ◌*◌, ◌/◌, ◌%◌, Bool, true, false, ◌&&◌, ◌||◌, not, List, [], ◌∷◌, ◌++◌,
  Option, none, some, ltb, leb, ◌==◌, length, is_empty, get_or, take, drop, replicate,
  if◌then◌else◌,
}
use nuedc_control_car_freert.Prelude.Words.{u8}
use nuedc_control_car_freert.Platform.I2c.{I2cLib, I2cStatus}
use nuedc_control_car_freert.Display.Font.{font}

-- `s_i2c` (0 is null) and `s_address`
pub record Display : Type 0 where
  pub i2c : ℕ
  pub address : ℕ

abbrev pub control_command : ℕ
control_command = 0

abbrev pub control_data : ℕ
control_data = 64

abbrev pub text_columns : ℕ
text_columns = 21

abbrev pub text_rows : ℕ
text_rows = 8

unfoldable pub normalize_char : ℕ → ℕ
normalize_char c = if ltb c 32 || ltb 126 c then 63 - 32 else c - 32

-- the six columns that a character is drawn with
unfoldable pub glyph : ℕ → List ℕ
glyph c = get_or font (normalize_char c) [] ++ (0 ∷ [])

-- `u8 (176 + row)` and the column in two nibbles
unfoldable pub cursor_commands : ℕ → ℕ → List ℕ
cursor_commands row col =
    let column = u8 (col * 6) in u8 (176 + row) ∷ (column % 16) ∷ (16 + column / 16 % 16) ∷ []

abbrev pub init_commands : List ℕ
init_commands =
    174 ∷ 32 ∷ 2 ∷ 176 ∷ 200 ∷ 0 ∷ 16 ∷ 64 ∷ 129 ∷ 127 ∷ 161 ∷ 166 ∷ 168 ∷ 63 ∷ 164 ∷ 211 ∷ 0 ∷ 213
    ∷ 128 ∷ 217 ∷ 241 ∷ 218 ∷ 18 ∷ 219 ∷ 64 ∷ 141 ∷ 20 ∷ 175 ∷ []

module _ {V : Type 0} (lib : I2cLib V) where
  unfoldable pub reset_controller_transfer : V → V
  reset_controller_transfer v = lib.enable (lib.reset_transfer (lib.disable v))

  -- while (test) { if (--timeout == 0u) return false; }
  unfoldable pub wait_while : (I2cStatus → Bool) → ℕ → V → V × Bool
  wait_while test zero v = (v, false)
  wait_while test (suc timeout) v =
      let (w, status) = lib.status v in
      let rest = wait_while test timeout w in if test status then rest else (w, true)

  unfoldable pub wait_until_idle : V → V × Bool
  wait_until_idle v =
      let (free, not_busy) = wait_while (λ s. s.busy) 200000 v in
      let (idle, is_idle) = wait_while (λ s. not s.idle) 200000 free in
      let (last, status) = lib.status idle in
      if not not_busy
      then (free, false)
      else if not is_idle
      then (idle, false)
      else (last, not status.error)

module _ {V : Type 0} (lib : I2cLib V) (d : Display) where
  -- what is left of a packet once the controller is idle
  unfoldable pub send_packet : V → List ℕ → V × Bool
  send_packet v packet =
      let (filled, count) = lib.fill_tx (lib.flush_tx v) packet in
      let (last, sent) = wait_until_idle lib (lib.start_tx filled d.address (length packet)) in
      if not (count == length packet)
      then (filled, false)
      else if sent
      then (last, true)
      else (reset_controller_transfer lib last, false)

  unfoldable pub write_packet : V → List ℕ → V × Bool
  write_packet v packet =
      let (ready, idle) = wait_until_idle lib v in
      let sent = send_packet ready packet in
      if d.i2c == 0 || length packet == 0
      then (v, false)
      else if idle
      then sent
      else (reset_controller_transfer lib ready, false)

  -- the loop of `write_command_list` and `write_data_list`, which differ in the control byte: a round
  -- sends up to seven of the bytes that are left
  unfoldable pub write_chunks : (fuel control : ℕ) → V → List ℕ → V × Bool
  write_chunks zero control v bytes = (v, is_empty bytes)
  write_chunks (suc fuel) control v bytes =
      let (w, sent) = write_packet v (control ∷ take 7 bytes) in
      let rest = write_chunks fuel control w (drop 7 bytes) in
      if is_empty bytes then (v, true) else if sent then rest else (w, false)

  unfoldable pub write_command_list : V → List ℕ → V × Bool
  write_command_list v commands = write_chunks (length commands) control_command v commands

  unfoldable pub write_data_list : V → List ℕ → V × Bool
  write_data_list v bytes = write_chunks (length bytes) control_data v bytes

  unfoldable pub set_cursor : V → ℕ → ℕ → V × Bool
  set_cursor v row col =
      if leb text_rows row || leb text_columns col
      then (v, false)
      else write_command_list v (cursor_commands row col)

  unfoldable pub write_char : V → ℕ → V × Bool
  write_char v c = write_data_list v (glyph c)

  -- a page cleared from column `col` on, in steps of seven
  unfoldable pub clear_columns : (fuel col : ℕ) → V → V × Bool
  clear_columns zero col v = (v, leb 128 col)
  clear_columns (suc fuel) col v =
      let (w, sent) =
        write_data_list v (replicate (if ltb 7 (128 - col) then 7 else 128 - col) 0) in
      let rest = clear_columns fuel (col + 7) w in
      if leb 128 col then (v, true) else if sent then rest else (w, false)

  -- the pages from `row` on, `pages` of them
  unfoldable pub clear_pages : (pages row : ℕ) → V → V × Bool
  clear_pages zero row v = (v, true)
  clear_pages (suc pages) row v =
      let (placed, sent) = write_command_list v (u8 (176 + row) ∷ 0 ∷ 16 ∷ []) in
      let (cleared, done) = clear_columns 128 0 placed in
      let rest = clear_pages pages (row + 1) cleared in
      if sent then (if done then rest else (cleared, false)) else (placed, false)

  unfoldable pub clear : V → V × Bool
  clear v = clear_pages 8 0 v

  -- the characters from a place in the row on: the place after them, and whether all were sent
  unfoldable pub write_chars : V → (place : ℕ) → List ℕ → V × ℕ × Bool
  write_chars v place [] = (v, place, true)
  write_chars v place (c ∷ text) =
      let (w, sent) = write_char v c in
      let rest = write_chars w (place + 1) text in
      if ltb place text_columns
      then (if sent then rest else (w, place, false))
      else (v, place, true)

  -- spaces from a place to the end of the row
  unfoldable pub write_spaces : (fuel : ℕ) → V → (place : ℕ) → V × Bool
  write_spaces zero v place = (v, leb text_columns place)
  write_spaces (suc fuel) v place =
      let (w, sent) = write_char v 32 in
      let rest = write_spaces fuel w (place + 1) in
      if leb text_columns place then (v, true) else if sent then rest else (w, false)

  unfoldable pub write_string : V → ℕ → ℕ → Option (List ℕ) → V × Bool
  write_string v row col none = (v, false)
  write_string v row col (some text) =
      let (placed, ready) = set_cursor v row col in
      let (w, place, sent) = write_chars placed col text in
      if ready then (w, sent) else (placed, false)

  unfoldable pub write_string_padded : V → ℕ → ℕ → Option (List ℕ) → V × Bool
  write_string_padded v row col none = (v, false)
  write_string_padded v row col (some text) =
      let (placed, ready) = set_cursor v row col in
      let (w, place, sent) = write_chars placed col text in
      let padded = write_spaces text_columns w place in
      if not ready then (placed, false) else if sent then padded else (w, false)

-- `SSD1306_MSPM0_Init`: the display it sets, the controller and the result
unfoldable pub init : {V : Type 0} → I2cLib V → V → ℕ → ℕ → Display × V × Bool
init lib v i2c address =
    let d : Display = record { i2c = i2c; address = address } in
    let (w, sent) = write_command_list lib d (reset_controller_transfer lib v) init_commands in
    let (cleared, done) = clear lib d w in if sent then (d, cleared, done) else (d, w, false)
