-- ===== src/Line/Tests.antt =====
-- Runs of the line sensors and the line tracker, and the theorems at concrete inputs.
use nuedc_control_car_freert.Prelude.{
  ◌≡◌, refl, [], ◌∷◌, ◌++◌, List, ℕ, ◌+◌, ◌&&◌, not, some, map, ◌==◌, if◌then◌else◌,
}
use nuedc_control_car_freert.Prelude.Int.{ℤ, pos, negsuc, ◌+ℤ◌, ◌-ℤ◌, ◌*ℤ◌}
use nuedc_control_car_freert.Platform.{Reader}
use nuedc_control_car_freert.Line.{weighted_from}
use nuedc_control_car_freert.Line.Board
use nuedc_control_car_freert.Line.Board.Reports.{sights, any, level, looks, look_reports}
use nuedc_control_car_freert.Float.Micro.{micro}

-- the third of seven sensors sees the line
abbrev third : List ℕ
third = 0 ∷ 0 ∷ 4095 ∷ 0 ∷ 0 ∷ 0 ∷ 0 ∷ []

third_weighted : weighted_from 0 7 0 (pos 0) third ≡ negsuc 8189
unfolding weighted_from ◌+ℤ◌ ◌-ℤ◌ ◌*ℤ◌
third_weighted = refl

-- the sensors on the pins 10 to 16 of port 1; the fourth sees the line
abbrev ccd_pins : ℕ → ℕ × ℕ
ccd_pins i = (1, 10 + i)

abbrev fourth_reader : Reader
fourth_reader port pin = if pin == 13 then 1 else 0

-- all see it
abbrev crossing_reader : Reader
crossing_reader port pin = 1

look_reports_example :
    let o =
      Board.get_ccd fourth_reader
        (looks (crossing_reader ∷ fourth_reader ∷ []) (Board.init {F = ℤ} ccd_pins))
        (some (7 ∷ 7 ∷ 7 ∷ 7 ∷ 7 ∷ 7 ∷ 7 ∷ 7 ∷ [])) in
    let seen = sights fourth_reader ccd_pins in
    (o.0.frame.on_line ≡ any seen && any (map not seen)) × (o.1 ≡ some (map level seen ++ (7 ∷ [])))
look_reports_example =
    look_reports ℤ ccd_pins (crossing_reader ∷ fourth_reader ∷ []) fourth_reader
      (7 ∷ 7 ∷ 7 ∷ 7 ∷ 7 ∷ 7 ∷ 7 ∷ 7 ∷ [])
