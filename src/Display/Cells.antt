-- ===== src/Display/Cells.antt =====
-- Where a text stands on the display: a character takes six of the 128 columns of its row.
use mathlib.Core.List.{append_assoc}
use mathlib.Core.Path.{subst}
use nuedc_control_car_freert.Prelude.{
  ℕ, ◌+◌, ◌-◌, ◌*◌, ◌/◌, ◌%◌, ◌≤◌, ◌<◌, ◌≡◌, refl, sym, ap, ◌∙◌, Bool, true, false, ◌||◌, leb,
  replicate, some, List, [], ◌∷◌, ◌++◌, arith, length, length-append, length-take, length-replicate,
  take, ◌==◌, ==_iff, get_or,
}
use nuedc_control_car_freert.Prelude.Bytes.{every, every_at}
use nuedc_control_car_freert.Prelude.Words.{u8}
use nuedc_control_car_freert.Display.Font.{font}
use nuedc_control_car_freert.Platform.I2c.{I2cLib}
use nuedc_control_car_freert.Display.{
  Display, text_columns, text_rows, control_command, control_data, normalize_char, glyph,
  cursor_commands, write_string, write_string_padded,
}
use nuedc_control_car_freert.Display.Packets.{packets, packets_lem, payload, AreCut}
use nuedc_control_car_freert.Display.Sending.{IsTraced, Sends}
use nuedc_control_car_freert.Display.Text.{
  chars_packets, string_packets, write_string-Sends, write_string_padded-Sends,
}

-- a row of the font with five columns
five_wide : ℕ → Bool
five_wide i = length (get_or font i []) == 5

font_five_wide : every five_wide 96 ≡ true
unfolding five_wide every
font_five_wide = refl

normalize_char_bound : (c : ℕ) → normalize_char c < 96
unfolding normalize_char
normalize_char_bound c = ground arith

length-glyph : (c : ℕ) → length (glyph c) ≡ 6
unfolding glyph five_wide
length-glyph c =
    let row = get_or font (normalize_char c) [] in
    let wide : length row ≡ 5 =
      (==_iff _ _).0 (every_at five_wide (normalize_char_bound c) font_five_wide) in
    omega (arith, length-append row (0 ∷ []), wide)

payload-append : (ps qs : List (List ℕ)) → payload (ps ++ qs) ≡ payload ps ++ payload qs
payload-append [] qs = refl
payload-append ([] ∷ ps) qs = payload-append ps qs
payload-append ((control ∷ bytes) ∷ ps) qs =
    ap (λ l. bytes ++ l) (payload-append ps qs) ∙ sym (append_assoc bytes (payload ps) (payload qs))

length-payload-chars : (text : List ℕ) → length (payload (chars_packets text)) ≡ 6 * length text
unfolding chars_packets
length-payload-chars [] = refl
length-payload-chars (c ∷ text) =
    let first = packets control_data (glyph c) in
    ap length (
      payload-append first (chars_packets text)
      ∙ ap (λ l. l ++ payload (chars_packets text)) (packets_lem control_data (glyph c)).0)
    ∙ omega (
      arith,
      length-append (glyph c) (payload (chars_packets text)),
      length-glyph c,
      length-payload-chars text,
    )

AreCut-append :
    (control : ℕ) (ps qs : List (List ℕ))
    → AreCut control ps
    → AreCut control qs
    → AreCut control (ps ++ qs)
AreCut-append control [] qs h k = k
AreCut-append control ([] ∷ ps) qs h k = absurd h
AreCut-append control ((c ∷ bytes) ∷ ps) qs (same, some_byte, few, rest) k =
    (same, some_byte, few, AreCut-append control ps qs rest k)

AreCut-chars : (text : List ℕ) → AreCut control_data (chars_packets text)
unfolding chars_packets
AreCut-chars [] = tt
AreCut-chars (c ∷ text) =
    AreCut-append control_data (packets control_data (glyph c)) (chars_packets text)
      (packets_lem control_data (glyph c)).1 (AreCut-chars text)

-- the page of a row, and the column where a character begins, in two nibbles
abbrev pub IsCursor : ℕ → ℕ → List ℕ → Type 0
IsCursor row col commands =
    (low : ℕ) × (high : ℕ) × (commands ≡ (176 + row) ∷ low ∷ (16 + high) ∷ [])
    × (low < 16)
    × (high < 16)
    × (low + 16 * high ≡ 6 * col)

cursor_commands-IsCursor :
    (row col : ℕ)
    → row < text_rows
    → col < text_columns
    → IsCursor row col (cursor_commands row col)
unfolding cursor_commands
cursor_commands-IsCursor row col hr hc =
    let column = u8 (col * 6) in
    let page : u8 (176 + row) ≡ 176 + row = omega arith in
    (
      column % 16,
      column / 16 % 16,
      ap (λ n. n ∷ (column % 16) ∷ (16 + column / 16 % 16) ∷ []) page,
      omega arith,
      omega arith,
      omega arith,
    )

string_packets_inside :
    (row col : ℕ) (text : List ℕ)
    → row < text_rows
    → col < text_columns
    → string_packets row col text
      ≡ packets control_command (cursor_commands row col)
        ++ chars_packets (take (text_columns - col) text)
unfolding string_packets
string_packets_inside row col text hr hc =
    let inside : (leb text_rows row || leb text_columns col) ≡ false = ground arith in
    rw inside refl

module _ {V : Type 0} (lib : I2cLib V) (d : Display) (fifo : V → List ℕ) (sent : V → List (List ℕ))
    (traced : IsTraced lib d.address fifo sent) where
  -- After the cursor the call sends nothing but the first packets of some data, and all if it
  -- succeeds; a condition holds of the number of bytes of that data.
  abbrev pub SendsData : V → V × Bool → ℕ → ℕ → (ℕ → Type 0) → Type 0
  SendsData v o row col P =
      (commands : List ℕ) × (shown : List (List ℕ)) × IsCursor row col commands
      × Sends lib d fifo sent traced v o (packets control_command commands ++ shown)
      × AreCut control_data shown
      × P (length (payload shown))

  shown_at :
      (v : V) (o : V × Bool) (row col : ℕ) (text : List ℕ) (P : ℕ → Type 0)
      → row < text_rows
      → col < text_columns
      → Sends lib d fifo sent traced v o (string_packets row col text)
      → P (6 * length (take (text_columns - col) text))
      → SendsData v o row col P
  shown_at v o row col text P hr hc sends bound =
      let fits = take (text_columns - col) text in
      (
        cursor_commands row col,
        chars_packets fits,
        cursor_commands-IsCursor row col hr hc,
        subst (Sends lib d fifo sent traced v o) (string_packets_inside row col text hr hc) sends,
        AreCut-chars fits,
        subst P (sym (length-payload-chars fits)) bound,
      )

  -- Whatever the controller answers, a text that is put at a place of the display stays in its row: the
  -- cursor commands name the page of the row and the column, 6 for each character, where the text
  -- begins, and all that is sent after them is data, with which a text ends at column 126 at the latest
  -- and, if all of it is sent, a padded text exactly there, whatever the characters are.
  pub text_fits :
      (v : V) (row col : ℕ) (text : List ℕ)
      → row < text_rows
      → col < text_columns
      → SendsData v (write_string lib d v row col (some text)) row col (λ n. 6 * col + n ≤ 126)
        × SendsData v
            (write_string_padded lib d v row col (some text))
            row
            col
            (λ n. 6 * col + n ≡ 126)
  text_fits v row col text hr hc =
      let spaces : List ℕ = replicate text_columns 32 in
      (
        shown_at v _ row col text (λ n. 6 * col + n ≤ 126) hr hc
            (write_string-Sends lib d fifo sent traced v row col text)
            (omega (arith, length-take (text_columns - col) text)),
        shown_at v _ row col (text ++ spaces) (λ n. 6 * col + n ≡ 126) hr hc
            (write_string_padded-Sends lib d fifo sent traced v row col text)
            (omega (
              arith,
              length-take (text_columns - col) (text ++ spaces),
              length-append text spaces,
              length-replicate {A = ℕ} text_columns 32,
            )),
      )
