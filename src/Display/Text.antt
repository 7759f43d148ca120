-- ===== src/Display/Text.antt =====
-- What a text and a cleared display are on the bus.
use mathlib.Core.Path.{subst}
use nuedc_control_car_freert.Prelude.{
  ℕ, zero, suc, ◌+◌, ◌-◌, ◌≤◌, ◌≡◌, refl, sym, ap, Bool, true, false, Bool-cases, inl, inr, ◌||◌,
  not, List, [], ◌∷◌, ◌++◌, some, arith, leb, ltb, length, take, drop, replicate, take-nil,
  if◌then◌else◌,
}
use nuedc_control_car_freert.Platform.I2c.{I2cLib}
use nuedc_control_car_freert.Display.{
  Display, control_command, control_data, text_columns, text_rows, glyph, cursor_commands,
  write_packet, write_chunks, write_command_list, write_data_list, set_cursor, write_char,
  write_chars, write_spaces, write_string, write_string_padded,
}
use nuedc_control_car_freert.Display.Packets.{cut, packets}
use nuedc_control_car_freert.Display.Sending.{
  IsTraced, Sends, nothing-Sends, failed-Sends, both-Sends, write_packet-Sends,
}

-- the glyphs of a text
unfoldable pub chars_packets : List ℕ → List (List ℕ)
chars_packets [] = []
chars_packets (c ∷ text) = packets control_data (glyph c) ++ chars_packets text

-- a text at a place of the display: the cursor, then the glyphs of what fits in the row
unfoldable pub string_packets : ℕ → ℕ → List ℕ → List (List ℕ)
string_packets row col text =
    if leb text_rows row || leb text_columns col
    then []
    else packets control_command (cursor_commands row col)
      ++ chars_packets (take (text_columns - col) text)

-- the same with the rest of the row empty
abbrev pub padded_packets : ℕ → ℕ → List ℕ → List (List ℕ)
padded_packets row col text = string_packets row col (text ++ replicate text_columns 32)

module _ {V : Type 0} (lib : I2cLib V) (d : Display) (fifo : V → List ℕ) (sent : V → List (List ℕ))
    (traced : IsTraced lib d.address fifo sent) where
  abbrev S : V → V × Bool → List (List ℕ) → Type 0
  S = Sends lib d fifo sent traced

  write_chunks-Sends :
      (fuel control : ℕ) (v : V) (bytes : List ℕ)
      → S v (write_chunks lib d fuel control v bytes) (cut fuel control bytes)
  unfolding write_chunks
  write_chunks-Sends zero control v bytes = nothing-Sends lib d fifo sent traced v v _ refl
  write_chunks-Sends (suc fuel) control v [] = nothing-Sends lib d fifo sent traced v v true refl
  write_chunks-Sends (suc fuel) control v (x ∷ bytes) =
      let packet = control ∷ x ∷ take 6 bytes in
      let p = write_packet lib d v packet in
      both-Sends lib d fifo sent traced v p _ (packet ∷ []) (cut fuel control (drop 6 bytes))
        (write_packet-Sends lib d fifo sent traced v packet)
        (write_chunks-Sends fuel control p.0 (drop 6 bytes))

  pub write_command_list-Sends :
      (v : V) (bytes : List ℕ)
      → S v (write_command_list lib d v bytes) (packets control_command bytes)
  unfolding write_command_list packets
  write_command_list-Sends v bytes = write_chunks-Sends (length bytes) control_command v bytes

  pub write_data_list-Sends :
      (v : V) (bytes : List ℕ) → S v (write_data_list lib d v bytes) (packets control_data bytes)
  unfolding write_data_list packets
  write_data_list-Sends v bytes = write_chunks-Sends (length bytes) control_data v bytes

  write_char-Sends : (v : V) (c : ℕ) → S v (write_char lib d v c) (packets control_data (glyph c))
  unfolding write_char
  write_char-Sends v c = write_data_list-Sends v (glyph c)

  -- what is left of a row from a place on
  room :
      (place : ℕ)
      → ltb place text_columns ≡ true
      → text_columns - place ≡ suc (text_columns - (place + 1))
  room place h = ground arith

  full : (place : ℕ) → ltb place text_columns ≡ false → text_columns - place ≡ 0
  full place h = ground arith

  at_end : (place : ℕ) → leb text_columns place ≡ true → text_columns - place ≡ 0
  at_end place h = ground arith

  abbrev ended : V × ℕ × Bool → V × Bool
  ended o = (o.0, o.2)

  if_ended :
      (b : Bool) (x y : V × ℕ × Bool)
      → ended (if b then x else y) ≡ (if b then ended x else ended y)
  if_ended true x y = refl
  if_ended false x y = refl

  write_chars-Sends :
      (v : V) (place : ℕ) (text : List ℕ)
      → S v
          (ended (write_chars lib d v place text))
          (chars_packets (take (text_columns - place) text))
  unfolding write_chars chars_packets
  write_chars-Sends v place [] =
      rw (take-nil (text_columns - place)) (nothing-Sends lib d fifo sent traced v v true refl)
  write_chars-Sends v place (c ∷ text) =
      let p = write_char lib d v c in
      let rest = write_chars lib d p.0 (place + 1) text in
      elim (Bool-cases (ltb place text_columns)) [
        | inr past ↦ rw (past, full place past) (nothing-Sends lib d fifo sent traced v v true refl)
        | inl inside ↦
            rw (inside, room place inside)
              (subst (λ o. S v o (chars_packets (c ∷ take (text_columns - (place + 1)) text)))
                (sym (if_ended p.1 rest (p.0, place, false)))
                (both-Sends lib d fifo sent traced v p (ended rest) (packets control_data (glyph c))
                  (chars_packets (take (text_columns - (place + 1)) text)) (write_char-Sends v c)
                  (write_chars-Sends p.0 (place + 1) text)))
      ]

  write_spaces-Sends :
      (fuel : ℕ) (v : V) (place : ℕ)
      → S v (write_spaces lib d fuel v place) (chars_packets (replicate (text_columns - place) 32))
  unfolding write_spaces chars_packets
  write_spaces-Sends zero v place = elim (Bool-cases (leb text_columns place)) [
    | inl past ↦ rw (past, at_end place past) (nothing-Sends lib d fifo sent traced v v true refl)
    | inr inside ↦ rw inside (failed-Sends lib d fifo sent traced v v _ refl)
  ]
  write_spaces-Sends (suc fuel) v place =
      let p = write_char lib d v 32 in
      elim (Bool-cases (leb text_columns place)) [
        | inl past ↦
            rw (past, at_end place past) (nothing-Sends lib d fifo sent traced v v true refl)
        | inr inside ↦
            rw (inside, room place (ground arith))
              (both-Sends lib d fifo sent traced v p _ (packets control_data (glyph 32)) _
                (write_char-Sends v 32) (write_spaces-Sends fuel p.0 (place + 1)))
      ]

  set_cursor-Sends :
      (v : V) (row col : ℕ)
      → (leb text_rows row || leb text_columns col) ≡ false
      → S v (set_cursor lib d v row col) (packets control_command (cursor_commands row col))
  unfolding set_cursor
  set_cursor-Sends v row col inside =
      rw inside (write_command_list-Sends v (cursor_commands row col))

  set_cursor_outside :
      (v : V) (row col : ℕ)
      → (leb text_rows row || leb text_columns col) ≡ true
      → set_cursor lib d v row col ≡ (v, false)
  unfolding set_cursor
  set_cursor_outside v row col outside = rw outside refl

  -- what follows the cursor, on the row or outside of it
  placed-Sends :
      (v : V) (row col : ℕ) (o : V × Bool) (text : List ℕ)
      → S (set_cursor lib d v row col).0 o (chars_packets (take (text_columns - col) text))
      → S v
          (if (set_cursor lib d v row col).1 then o else ((set_cursor lib d v row col).0, false))
          (string_packets row col text)
  unfolding string_packets
  placed-Sends v row col o text rest =
      elim (Bool-cases (leb text_rows row || leb text_columns col)) [
        | inl outside ↦
            rw (outside, set_cursor_outside v row col outside)
              (nothing-Sends lib d fifo sent traced v v false refl)
        | inr inside ↦ rw inside (
            both-Sends lib d fifo sent traced v (set_cursor lib d v row col) o
              (packets control_command (cursor_commands row col))
              (chars_packets (take (text_columns - col) text)) (set_cursor-Sends v row col inside)
              rest)
      ]

  -- the same for a text that is not padded
  pub write_string-Sends :
      (v : V) (row col : ℕ) (text : List ℕ)
      → Sends lib d fifo sent traced v
          (write_string lib d v row col (some text))
          (string_packets row col text)
  unfolding write_string
  write_string-Sends v row col text =
      let placed = (set_cursor lib d v row col).0 in
      placed-Sends v row col (ended (write_chars lib d placed col text)) text
        (write_chars-Sends placed col text)

  take-replicate : (n m : ℕ) (c : ℕ) → n ≤ m → take n (replicate m c) ≡ replicate n c
  take-replicate zero m c h = refl
  take-replicate (suc n) zero c h = absurd (omega arith)
  take-replicate (suc n) (suc m) c h = ap (λ l. c ∷ l) (take-replicate n m c (omega arith))

  -- the spaces after the characters, if these were sent
  abbrev pad : V × ℕ × Bool → V × Bool
  pad o = if o.2 then write_spaces lib d text_columns o.0 o.1 else (o.0, false)

  if_pad :
      (b : Bool) (o : V × ℕ × Bool) (w : V) (place : ℕ)
      → pad (if b then o else (w, place, false)) ≡ (if b then pad o else (w, false))
  if_pad true o w place = refl
  if_pad false o w place = refl

  filled-Sends :
      (v : V) (place : ℕ) (text : List ℕ)
      → S v
          (pad (write_chars lib d v place text))
          (chars_packets (take (text_columns - place) (text ++ replicate text_columns 32)))
  unfolding write_chars chars_packets
  filled-Sends v place [] =
      rw (take-replicate (text_columns - place) text_columns 32 (omega arith))
        (write_spaces-Sends text_columns v place)
  filled-Sends v place (c ∷ text) =
      let p = write_char lib d v c in
      elim (Bool-cases (ltb place text_columns)) [
        | inr past ↦
            let none_left : S v (write_spaces lib d text_columns v place) [] =
              subst
                (λ n.
                  S v (write_spaces lib d text_columns v place) (chars_packets (replicate n 32)))
                (full place past) (write_spaces-Sends text_columns v place) in
            rw (past, full place past) none_left
        | inl inside ↦
            let rest = write_chars lib d p.0 (place + 1) text in
            let more = take (text_columns - (place + 1)) (text ++ replicate text_columns 32) in
            rw (inside, room place inside)
              (subst (λ o. S v o (chars_packets (c ∷ more))) (sym (if_pad p.1 rest p.0 place))
                (both-Sends lib d fifo sent traced v p (pad rest) (packets control_data (glyph c))
                  (chars_packets more) (write_char-Sends v c) (filled-Sends p.0 (place + 1) text)))
      ]

  -- Whatever the controller answers, a padded text put at a place sends nothing but the first packets
  -- of the cursor commands of the place, of the glyphs of the characters that fit in the row and of
  -- the spaces up to the end of the row, in that order and none twice, and all of them if it reports
  -- success; outside of the display it sends nothing.
  pub write_string_padded-Sends :
      (v : V) (row col : ℕ) (text : List ℕ)
      → Sends lib d fifo sent traced v
          (write_string_padded lib d v row col (some text))
          (padded_packets row col text)
  unfolding write_string_padded
  write_string_padded-Sends v row col text =
      let placed = (set_cursor lib d v row col).0 in
      subst (λ o. S v o (padded_packets row col text))
        (sym (if_not (set_cursor lib d v row col).1 _ _))
        (placed-Sends v row col (pad (write_chars lib d placed col text))
          (text ++ replicate text_columns 32) (filled-Sends placed col text))
    where
      if_not : (b : Bool) (x y : V × Bool) → (if not b then x else y) ≡ (if b then y else x)
      if_not true x y = refl
      if_not false x y = refl
