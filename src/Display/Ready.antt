-- ===== src/Display/Ready.antt =====
-- The display driver on a controller whose transfers come to an end: that it succeeds.
use mathlib.Core.List.{append-nil}
use nuedc_control_car_freert.Prelude.{
  ℕ, zero, suc, ◌+◌, ◌-◌, ◌≤◌, ◌<◌, ◌≡◌, refl, sym, ap, ◌∙◌, Bool, true, false, Bool-cases, inl,
  inr, ◌||◌, List, [], ◌∷◌, ◌++◌, some, arith, leb, ltb, replicate, ◌==◌, if◌then◌else◌,
}
use nuedc_control_car_freert.Prelude.Words.{u8}
use nuedc_control_car_freert.Platform.I2c.{I2cLib}
use nuedc_control_car_freert.Display.{
  Display, control_command, text_columns, text_rows, glyph, cursor_commands, write_command_list,
  write_data_list, set_cursor, write_char, write_chars, write_spaces, write_string,
  write_string_padded, clear_columns, clear_pages, clear, init, init_commands,
  reset_controller_transfer,
}
use nuedc_control_car_freert.Display.Waits.{IsReady, Done, write_commands_ready, write_data_ready}
use nuedc_control_car_freert.Display.Sending.{IsTraced, Sends}
use nuedc_control_car_freert.Display.Packets.{packets}
use nuedc_control_car_freert.Display.Pages.{clear_packets, init-Sends, started_with}
use nuedc_control_car_freert.Display.Text.{
  string_packets, padded_packets, write_string-Sends, write_string_padded-Sends,
}

module _ {V : Type 0} (lib : I2cLib V) (d : Display) (left : V → ℕ) (ready : IsReady lib left)
    (bound : (d.i2c == 0) ≡ false) where
  write_chars_ready :
      (v : V) (place : ℕ) (text : List ℕ)
      → left v < 200000
      → ((write_chars lib d v place text).2 ≡ true)
        × (left (write_chars lib d v place text).0 < 200000)
  unfolding write_chars write_char
  write_chars_ready v place [] calm = (refl, calm)
  write_chars_ready v place (c ∷ text) calm = elim (Bool-cases (ltb place text_columns)) [
    | inl inside ↦
        let (sent, calm') = write_data_ready lib d left ready bound v (glyph c) calm in
        rw (inside, sent)
          (write_chars_ready (write_data_list lib d v (glyph c)).0 (place + 1) text calm')
    | inr past ↦ rw past (refl, calm)
  ]

  set_cursor_ready :
      (v : V) (row col : ℕ)
      → left v < 200000
      → row < text_rows
      → col < text_columns
      → Done left (set_cursor lib d v row col)
  unfolding set_cursor
  set_cursor_ready v row col calm hr hc =
      let inside : (leb text_rows row || leb text_columns col) ≡ false = ground arith in
      rw inside (write_commands_ready lib d left ready bound v (cursor_commands row col) calm)

  write_string_ready :
      (v : V) (row col : ℕ) (text : List ℕ)
      → left v < 200000
      → row < text_rows
      → col < text_columns
      → Done left (write_string lib d v row col (some text))
  unfolding write_string
  write_string_ready v row col text calm hr hc =
      let (placed, calm') = set_cursor_ready v row col calm hr hc in
      rw placed (write_chars_ready _ col text calm')

  write_spaces_ready :
      (fuel : ℕ) (v : V) (place : ℕ)
      → left v < 200000
      → text_columns ≤ place + fuel
      → Done left (write_spaces lib d fuel v place)
  unfolding write_spaces write_char
  write_spaces_ready zero v place calm h = (ground arith, calm)
  write_spaces_ready (suc fuel) v place calm h = elim (Bool-cases (leb text_columns place)) [
    | inl past ↦ rw past (refl, calm)
    | inr inside ↦
        let (sent, calm') = write_data_ready lib d left ready bound v (glyph 32) calm in
        rw (inside, sent)
          (write_spaces_ready fuel (write_data_list lib d v (glyph 32)).0 (place + 1) calm'
            (omega (arith, h)))
  ]

  write_padded_ready :
      (v : V) (row col : ℕ) (text : List ℕ)
      → left v < 200000
      → row < text_rows
      → col < text_columns
      → Done left (write_string_padded lib d v row col (some text))
  unfolding write_string_padded
  write_padded_ready v row col text calm hr hc =
      let (placed, calm') = set_cursor_ready v row col calm hr hc in
      let (sent, calm'') = write_chars_ready (set_cursor lib d v row col).0 col text calm' in
      rw (placed, sent) (write_spaces_ready text_columns _ _ calm'' (omega arith))

  both_ready :
      (p o : V × Bool) → Done left p → Done left o → Done left (if p.1 then o else (p.0, false))
  both_ready p o (sent, calm) done = rw sent done

  clear_columns_ready :
      (fuel col : ℕ) (v : V)
      → left v < 200000
      → 128 ≤ col + fuel
      → Done left (clear_columns lib d fuel col v)
  unfolding clear_columns
  clear_columns_ready zero col v calm h = (ground arith, calm)
  clear_columns_ready (suc fuel) col v calm h =
      let zeros : List ℕ = replicate (if ltb 7 (128 - col) then 7 else 128 - col) 0 in
      let p = write_data_list lib d v zeros in
      let sent = write_data_ready lib d left ready bound v zeros calm in
      let rest = clear_columns lib d fuel (col + 7) p.0 in
      let both : Done left (if p.1 then rest else (p.0, false)) =
        both_ready p rest sent (clear_columns_ready fuel (col + 7) p.0 sent.1 (omega (arith, h))) in
      elim (Bool-cases (leb 128 col)) [
        | inl past ↦ rw past (refl, calm)
        | inr inside ↦ rw inside both
      ]

  clear_pages_ready :
      (pages row : ℕ) (v : V) → left v < 200000 → Done left (clear_pages lib d pages row v)
  unfolding clear_pages
  clear_pages_ready zero row v calm = (refl, calm)
  clear_pages_ready (suc pages) row v calm =
      let commands = u8 (176 + row) ∷ 0 ∷ 16 ∷ [] in
      let p = write_command_list lib d v commands in
      let c = clear_columns lib d 128 0 p.0 in
      let rest = clear_pages lib d pages (row + 1) c.0 in
      let placed = write_commands_ready lib d left ready bound v commands calm in
      let cleared = clear_columns_ready 128 0 p.0 placed.1 (omega arith) in
      both_ready p (if c.1 then rest else (c.0, false)) placed
        (both_ready c rest cleared (clear_pages_ready pages (row + 1) c.0 cleared.1))

  clear_ready : (v : V) → left v < 200000 → Done left (clear lib d v)
  unfolding clear
  clear_ready v calm = clear_pages_ready 8 0 v calm

  module _ (fifo : V → List ℕ) (sent : V → List (List ℕ))
      (traced : IsTraced lib d.address fifo sent) where
    all_sent :
        (v : V) (o : V × Bool) (packets : List (List ℕ))
        → Sends lib d fifo sent traced v o packets
        → o.1 ≡ true
        → (o.1 ≡ true) × (sent o.0 ≡ sent v ++ packets)
    all_sent v o packets (done, rest, whole, told, inl failed) ok = absurd (ground arith)
    all_sent v o packets (done, rest, whole, told, inr all) ok =
        let every : done ≡ packets =
          sym (append-nil done) ∙ ap (λ l. done ++ l) (sym all) ∙ whole in
        (ok, told ∙ ap (λ l. sent v ++ l) every)

    -- On a controller whose transfers come to an end, each before its status was read 200000 times, and
    -- without an error, a text put at a place of the display is reported as written, and the display
    -- was sent the cursor commands of the place and the glyphs of the characters that fit in the row;
    -- padded, those of the text and of the spaces up to the end of the row.
    pub text_shown :
        (v : V) (row col : ℕ) (text : List ℕ)
        → left v < 200000
        → row < text_rows
        → col < text_columns
        → let plain = write_string lib d v row col (some text) in
          let padded = write_string_padded lib d v row col (some text) in
          ((plain.1 ≡ true) × (sent plain.0 ≡ sent v ++ string_packets row col text))
          × (padded.1 ≡ true)
          × (sent padded.0 ≡ sent v ++ padded_packets row col text)
    text_shown v row col text calm hr hc =
        let plain =
          all_sent v _ _ (write_string-Sends lib d fifo sent traced v row col text)
            (write_string_ready v row col text calm hr hc).0 in
        let padded =
          all_sent v _ _ (write_string_padded-Sends lib d fifo sent traced v row col text)
            (write_padded_ready v row col text calm hr hc).0 in
        (plain, padded.0, padded.1)

    init_ready : (v : V) → left v < 200000 → (init lib v d.i2c d.address).2 ≡ true
    unfolding init reset_controller_transfer
    init_ready v calm =
        let disabled = lib.disable v in
        let reset = lib.reset_transfer disabled in
        let started = lib.enable reset in
        let less : left started < 200000 =
          omega (arith, ready.disabled v, ready.reset disabled, ready.enabled reset, calm) in
        let (sent, calm') =
          write_commands_ready lib d left ready bound started init_commands less in
        rw sent (clear_ready (write_command_list lib d started init_commands).0 calm').0

    -- On such a controller the start is reported as done, and the display was sent the 28 set-up
    -- commands and then, for each of the eight pages, the cursor at its start and 128 empty columns.
    pub init_shown :
        (v : V)
        → left v < 200000
        → let o = init lib v d.i2c d.address in
          (o.2 ≡ true)
          × (sent o.1 ≡ sent v ++ (packets control_command init_commands ++ clear_packets 8 0))
    init_shown v calm =
        all_sent v (started_with (init lib v d.i2c d.address))
          (packets control_command init_commands ++ clear_packets 8 0)
          (init-Sends lib d.i2c d.address fifo sent traced v) (init_ready v calm)
