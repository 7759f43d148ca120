-- ===== src/Line/Board/Reports.antt =====
-- What the line sensors of the board report.
use nuedc_control_car_freert.Prelude.{
  ℕ, ◌+◌, ◌*◌, ◌-◌, ◌^◌, ◌≤◌, ◌<◌, ◌≡◌, refl, sym, ap, ◌∙◌, Bool, true, false, Bool-cases, inl, inr,
  ◌&&◌, ◌||◌, not, List, [], ◌∷◌, ◌++◌, none, some, arith, length, map, take, drop, ltb, leb, ◌==◌,
  if◌then◌else◌,
}
use nuedc_control_car_freert.Prelude.Int.{ℤ}
use nuedc_control_car_freert.Prelude.Words.{u16}
use nuedc_control_car_freert.Platform.{Reader}
use nuedc_control_car_freert.Platform.Gpio
use nuedc_control_car_freert.Platform.Gpio.{GpioPin}
use nuedc_control_car_freert.Line
use nuedc_control_car_freert.Line.{
  LineSensorArray, LineSensorConfig, LineFrame, LineSensor, array_raw, read_raw, get_count, update,
  track_bias, strength_from, min_from, max_from,
}
use nuedc_control_car_freert.Float.{Float}
use nuedc_control_car_freert.Line.Board.{
  ccd_count, ccd, line_sensors, line_sensor_config, init, get_ccd,
}

-- what the sensors see
abbrev pub sights : Reader → (ℕ → ℕ × ℕ) → List Bool
sights reader pins = map (Gpio.read_active reader) (line_sensors pins).channels

abbrev pub any : List Bool → Bool
any [] = false
any (b ∷ bs) = b || any bs

abbrev pub level : Bool → ℕ
level b = if b then 4095 else 0

-- how many see the line
abbrev seen : List Bool → ℕ
seen [] = 0
seen (b ∷ bs) = (if b then 1 else 0) + seen bs

max_from_top : (bs : List Bool) → max_from 4095 (map level bs) ≡ 4095
max_from_top [] = refl
max_from_top (true ∷ bs) = max_from_top bs
max_from_top (false ∷ bs) = max_from_top bs

max_from_zero : (bs : List Bool) → max_from 0 (map level bs) ≡ level (any bs)
max_from_zero [] = refl
max_from_zero (true ∷ bs) = max_from_top bs
max_from_zero (false ∷ bs) = max_from_zero bs

min_from_zero : (bs : List Bool) → min_from 0 (map level bs) ≡ 0
min_from_zero [] = refl
min_from_zero (true ∷ bs) = min_from_zero bs
min_from_zero (false ∷ bs) = min_from_zero bs

min_from_top : (bs : List Bool) → min_from 4095 (map level bs) ≡ level (not (any (map not bs)))
min_from_top [] = refl
min_from_top (true ∷ bs) = min_from_top bs
min_from_top (false ∷ bs) = min_from_zero bs

strength_levels :
    (bs : List Bool) (sum : ℕ)
    → sum + 4095 * length bs < 2 ^ 32
    → strength_from 0 sum (map level bs) ≡ sum + 4095 * seen bs
unfolding strength_from
strength_levels [] sum h = omega arith
strength_levels (true ∷ bs) sum h =
    ap (λ n. strength_from 0 n (map level bs)) (omega arith)
    ∙ strength_levels bs (sum + 4095) (omega (arith, h))
    ∙ omega arith
strength_levels (false ∷ bs) sum h =
    ap (λ n. strength_from 0 n (map level bs)) (omega arith)
    ∙ strength_levels bs sum (omega (arith, h))
    ∙ omega arith

any-seen : (bs : List Bool) → any bs ≡ true → 0 < seen bs
any-seen [] h = absurd (ground arith)
any-seen (true ∷ bs) h = omega arith
any-seen (false ∷ bs) h = omega (arith, any-seen bs h)

seen_bound : (bs : List Bool) → seen bs ≤ length bs
seen_bound [] = omega arith
seen_bound (true ∷ bs) = omega (arith, seen_bound bs)
seen_bound (false ∷ bs) = omega (arith, seen_bound bs)

-- the test of the frame
abbrev passes : ℕ → ℕ → ℕ → Bool
passes low high strength =
    leb 120 (u16 (high - low)) && leb 260 (if ltb 65535 strength then 65535 else u16 strength)

passes_mixed :
    (low high strength : ℕ)
    → low ≡ 0
    → high ≡ 4095
    → 260 ≤ strength
    → passes low high strength ≡ true
passes_mixed low high strength hl hh hs = ground arith

passes_flat : (low high strength : ℕ) → low ≡ high → passes low high strength ≡ false
passes_flat low high strength h = ground arith

-- the same on levels, the first of which is `b`
abbrev sees_line : Bool → List Bool → Bool
sees_line b bs =
    let samples = map level (b ∷ bs) in
    let low = min_from (level b) samples in
    passes low (max_from (level b) samples) (strength_from low 0 samples)

sees_line_lem :
    (b : Bool) (bs : List Bool)
    → length bs < 8
    → sees_line b bs ≡ any (b ∷ bs) && any (map not (b ∷ bs))
sees_line_lem true bs few =
    let samples = map level (true ∷ bs) in
    let low = min_from 4095 samples in
    let lowest : low ≡ level (not (any (map not bs))) = min_from_top bs in
    elim (Bool-cases (any (map not bs))) [
      | inl mixed ↦
          let zero_low : low ≡ 0 = lowest ∙ ap (λ b. level (not b)) mixed in
          let strength : strength_from low 0 samples ≡ 4095 * seen (true ∷ bs) =
            ap (λ l. strength_from l 0 samples) zero_low
            ∙ strength_levels (true ∷ bs) 0 (omega (arith, few))
            ∙ omega arith in
          passes_mixed low _ _ zero_low (max_from_top bs) (omega (arith, strength)) ∙ sym mixed
      | inr all ↦
          passes_flat low _ _ (lowest ∙ ap (λ b. level (not b)) all ∙ sym (max_from_top bs))
          ∙ sym all
    ]
sees_line_lem false bs few =
    let samples = map level (false ∷ bs) in
    let low = min_from 0 samples in
    let zero_low : low ≡ 0 = min_from_zero bs in
    elim (Bool-cases (any bs)) [
      | inl mixed ↦
          let strength : strength_from low 0 samples ≡ 4095 * seen (false ∷ bs) =
            ap (λ l. strength_from l 0 samples) zero_low
            ∙ strength_levels (false ∷ bs) 0 (omega (arith, few))
            ∙ omega arith in
          passes_mixed low _ _ zero_low (max_from_zero bs ∙ ap level mixed)
            (omega (arith, strength, any-seen bs mixed))
          ∙ rw mixed refl
      | inr none_seen ↦
          passes_flat low _ _ (zero_low ∙ sym (max_from_zero bs ∙ ap level none_seen))
          ∙ rw none_seen refl
    ]

module _ {F : Type 0} ⦃f : Float F⦄ where
  -- what the end of the update leaves
  track_bias_keeps :
      (s : LineSensor F) (strength : ℕ) (weighted : ℤ)
      → let o = track_bias s strength weighted in
        (o.config ≡ s.config) × (o.frame.raw ≡ s.frame.raw) × (o.frame.on_line ≡ s.frame.on_line)
  unfolding track_bias
  track_bias_keeps s strength weighted =
      elim (Bool-cases (s.frame.on_line && not (strength == 0) && ltb 1 s.frame.count)) [
        | inl tracked ↦ rw tracked (refl, refl, refl)
        | inr lost ↦ rw lost (refl, refl, refl)
      ]

  board_on_line :
      (reader : Reader) (pins : ℕ → ℕ × ℕ) (s : LineSensor F)
      → (update reader (record s { config = line_sensor_config pins })).frame.on_line
        ≡ any (sights reader pins) && any (map not (sights reader pins))
  unfolding update line_sensor_config line_sensors array_raw read_raw get_count
  board_on_line reader pins s =
      let rest =
        Gpio.read_active reader (ccd pins 1)
        ∷ Gpio.read_active reader (ccd pins 2)
        ∷ Gpio.read_active reader (ccd pins 3)
        ∷ Gpio.read_active reader (ccd pins 4)
        ∷ Gpio.read_active reader (ccd pins 5)
        ∷ Gpio.read_active reader (ccd pins 6)
        ∷ [] in
      (track_bias_keeps _ _ _).2
      ∙ sees_line_lem (Gpio.read_active reader (ccd pins 0)) rest (omega arith)

  board_raw :
      (reader : Reader) (pins : ℕ → ℕ × ℕ) (s : LineSensor F)
      → take ccd_count (update reader (record s { config = line_sensor_config pins })).frame.raw
        ≡ map level (sights reader pins)
  unfolding update line_sensor_config line_sensors array_raw read_raw get_count
  board_raw reader pins s = ap (take ccd_count) (track_bias_keeps _ _ _).1

  update-config : (reader : Reader) (s : LineSensor F) → (update reader s).config ≡ s.config
  unfolding update
  update-config reader s = elim (Bool-cases (get_count s.config == 0)) [
    | inl empty ↦ rw empty refl
    | inr some_sensor ↦ rw some_sensor (track_bias_keeps _ _ _).0
  ]

  -- the sensor after the board has looked at these pins in turn
  abbrev pub looks : List Reader → LineSensor F → LineSensor F
  looks [] s = s
  looks (reader ∷ readers) s = looks readers (get_ccd reader s none).0

  looks-config : (readers : List Reader) (s : LineSensor F) → (looks readers s).config ≡ s.config
  unfolding get_ccd
  looks-config [] s = refl
  looks-config (reader ∷ readers) s =
      looks-config readers (update reader s) ∙ update-config reader s

-- Whatever the board has seen since its start: the next look reports the line exactly when some
-- sensor sees it and some other does not, so neither on an empty ground nor where all seven see it,
-- and it copies for each sensor 4095 or 0 into the caller's array and leaves the rest of it.
pub look_reports :
    (F : Type 0) ⦃f : Float F⦄ (pins : ℕ → ℕ × ℕ) (readers : List Reader) (reader : Reader)
    (v : List ℕ)
    → let o = get_ccd reader (looks readers (init {F = F} pins)) (some v) in
      let seen = sights reader pins in
      (o.0.frame.on_line ≡ any seen && any (map not seen))
      × (o.1 ≡ some (map level seen ++ drop ccd_count v))
unfolding get_ccd init Line.init
look_reports F pins readers reader v =
    let s : LineSensor F = looks readers (init pins) in
    let own : s.config ≡ line_sensor_config pins = looks-config readers (init pins) in
    (
      ap (λ c. (update reader (record s { config = c })).frame.on_line) own
          ∙ board_on_line reader pins s,
      ap
            (λ c. some (
              take ccd_count (update reader (record s { config = c })).frame.raw
              ++ drop ccd_count v))
            own
          ∙ ap (λ l. some (l ++ drop ccd_count v)) (board_raw reader pins s),
    )
