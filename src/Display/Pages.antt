-- ===== src/Display/Pages.antt =====
-- What the start of the display and its clearing are on the bus.
use mathlib.Core.Path.{subst}
use mathlib.Core.List.{append_assoc}
use nuedc_control_car_freert.Prelude.{
  ℕ, zero, suc, ◌+◌, ◌-◌, ◌≡◌, refl, sym, Bool, true, false, Bool-cases, inl, inr, List, [], ◌∷◌,
  ◌++◌, leb, ltb, replicate, if◌then◌else◌,
}
use nuedc_control_car_freert.Prelude.Words.{u8}
use nuedc_control_car_freert.Platform.I2c.{I2cLib}
use nuedc_control_car_freert.Display.{
  Display, control_command, control_data, init_commands, reset_controller_transfer, write_data_list,
  write_command_list, clear_columns, clear_pages, clear, init,
}
use nuedc_control_car_freert.Display.Packets.{packets}
use nuedc_control_car_freert.Display.Sending.{
  IsTraced, Sends, nothing-Sends, both-Sends, moved-Sends, reset_controller-sent,
}
use nuedc_control_car_freert.Display.Text.{write_command_list-Sends, write_data_list-Sends}

-- a page from the column on, in pieces of seven
abbrev column_packets : (fuel col : ℕ) → List (List ℕ)
column_packets zero col = []
column_packets (suc fuel) col =
    let rest = column_packets fuel (col + 7) in
    if leb 128 col
    then []
    else packets control_data (replicate (if ltb 7 (128 - col) then 7 else 128 - col) 0) ++ rest

-- the pieces are those of 128 empty columns
columns_whole : column_packets 128 0 ≡ packets control_data (replicate 128 0)
unfolding packets
columns_whole = refl

-- the cursor at the start of a page, and 128 empty columns
unfoldable pub page_packets : ℕ → List (List ℕ)
page_packets row =
    packets control_command (u8 (176 + row) ∷ 0 ∷ 16 ∷ []) ++ packets control_data (replicate 128 0)

-- the pages from `row` on
unfoldable pub clear_packets : (pages row : ℕ) → List (List ℕ)
clear_packets zero row = []
clear_packets (suc pages) row = page_packets row ++ clear_packets pages (row + 1)

module _ {V : Type 0} (lib : I2cLib V) (d : Display) (fifo : V → List ℕ) (sent : V → List (List ℕ))
    (traced : IsTraced lib d.address fifo sent) where
  abbrev S : V → V × Bool → List (List ℕ) → Type 0
  S = Sends lib d fifo sent traced

  clear_columns-Sends :
      (fuel col : ℕ) (v : V) → S v (clear_columns lib d fuel col v) (column_packets fuel col)
  unfolding clear_columns
  clear_columns-Sends zero col v = nothing-Sends lib d fifo sent traced v v _ refl
  clear_columns-Sends (suc fuel) col v =
      let zeros : List ℕ = replicate (if ltb 7 (128 - col) then 7 else 128 - col) 0 in
      let p = write_data_list lib d v zeros in
      let rest = clear_columns lib d fuel (col + 7) p.0 in
      let both : S v (if p.1 then rest else (p.0, false))
          (packets control_data zeros ++ column_packets fuel (col + 7)) =
        both-Sends lib d fifo sent traced v p rest (packets control_data zeros)
          (column_packets fuel (col + 7)) (write_data_list-Sends lib d fifo sent traced v zeros)
          (clear_columns-Sends fuel (col + 7) p.0) in
      elim (Bool-cases (leb 128 col)) [
        | inl past ↦ rw past (nothing-Sends lib d fifo sent traced v v true refl)
        | inr inside ↦ rw inside both
      ]

  page-Sends : (v : V) → S v (clear_columns lib d 128 0 v) (packets control_data (replicate 128 0))
  page-Sends v =
      subst (S v (clear_columns lib d 128 0 v)) columns_whole (clear_columns-Sends 128 0 v)

  clear_pages-Sends :
      (pages row : ℕ) (v : V) → S v (clear_pages lib d pages row v) (clear_packets pages row)
  unfolding clear_pages clear_packets page_packets
  clear_pages-Sends zero row v = nothing-Sends lib d fifo sent traced v v true refl
  clear_pages-Sends (suc pages) row v =
      let commands = u8 (176 + row) ∷ 0 ∷ 16 ∷ [] in
      let p = write_command_list lib d v commands in
      let c = clear_columns lib d 128 0 p.0 in
      let rest = clear_pages lib d pages (row + 1) c.0 in
      subst (S v (if p.1 then (if c.1 then rest else (c.0, false)) else (p.0, false)))
        (sym (
          append_assoc (packets control_command commands) (packets control_data (replicate 128 0))
            (clear_packets pages (row + 1))))
        (both-Sends lib d fifo sent traced v p (if c.1 then rest else (c.0, false))
          (packets control_command commands)
          (packets control_data (replicate 128 0) ++ clear_packets pages (row + 1))
          (write_command_list-Sends lib d fifo sent traced v commands)
          (both-Sends lib d fifo sent traced p.0 c rest (packets control_data (replicate 128 0))
            (clear_packets pages (row + 1)) (page-Sends p.0)
            (clear_pages-Sends pages (row + 1) c.0)))

  pub clear-Sends : (v : V) → S v (clear lib d v) (clear_packets 8 0)
  unfolding clear
  clear-Sends v = clear_pages-Sends 8 0 v

-- the controller and the result of the start
abbrev pub started_with : {V : Type 0} → Display × V × Bool → V × Bool
started_with o = (o.1, o.2)

if_started :
    {V : Type 0} (b : Bool) (x y : Display × V × Bool)
    → started_with (if b then x else y) ≡ (if b then started_with x else started_with y)
if_started true x y = refl
if_started false x y = refl

-- The start resets the controller and sends nothing but the first packets of the 28 set-up commands
-- and then, for each of the eight pages, of the cursor at its start and 128 empty columns; all of them
-- if it reports success.
pub init-Sends :
    {V : Type 0} (lib : I2cLib V) (i2c address : ℕ) (fifo : V → List ℕ) (sent : V → List (List ℕ))
    (traced : IsTraced lib address fifo sent) (v : V)
    → let d : Display = record { i2c = i2c; address = address } in
      Sends lib d fifo sent traced v
        (started_with (init lib v i2c address))
        (packets control_command init_commands ++ clear_packets 8 0)
unfolding init
init-Sends lib i2c address fifo sent traced v =
    let d : Display = record { i2c = i2c; address = address } in
    let started = reset_controller_transfer lib v in
    let p = write_command_list lib d started init_commands in
    let c = clear lib d p.0 in
    subst
      (λ o.
        Sends lib d fifo sent traced v o
          (packets control_command init_commands ++ clear_packets 8 0))
      (sym (if_started p.1 (d, c.0, c.1) (d, p.0, false)))
      (moved-Sends lib d fifo sent traced v started (if p.1 then c else (p.0, false)) _
        (reset_controller-sent lib d fifo sent traced v)
        (both-Sends lib d fifo sent traced started p c (packets control_command init_commands)
          (clear_packets 8 0)
          (write_command_list-Sends lib d fifo sent traced started init_commands)
          (clear-Sends lib d fifo sent traced p.0)))
