-- ===== src/Telemetry/Emit/Pace.antt =====
-- The time between the ticks that report.
use nuedc_control_car_freert.Prelude.{
  ℕ, ◌+◌, ◌-◌, ◌^◌, ◌<◌, ◌≤◌, ◌≡◌, refl, ◌∙◌, ◌⊎◌, inl, inr, true, false, List, [], ◌∷◌, arith,
}
use nuedc_control_car_freert.Prelude.Words.{sub32}
use nuedc_control_car_freert.Telemetry.Commands.{Telemetry}
use nuedc_control_car_freert.Telemetry.Commands.Lines.{feed}
use nuedc_control_car_freert.Telemetry.Commands.Paced.{feed-Paced}
use nuedc_control_car_freert.Telemetry.Emit.{Bindings, Memory, Report, emit, tick}
use nuedc_control_car_freert.Float.{Float}

-- What comes before a tick and with it: the bytes received since the last one, the time of the tick,
-- and what is bound and measured then.
pub record Moment (F : Type 0) : Type 0 where
  pub bytes : List ℕ
  pub time : ℕ
  pub memory : Memory F
  pub bindings : Bindings

-- a tick at which something was reported, with the period that was set then
pub record Reported : Type 0 where
  pub at : ℕ
  pub period : ℕ

-- a tick put before the others if something was reported at it
abbrev pub when_reported : {F : Type 0} → List (Report F) → Reported → List Reported → List Reported
when_reported [] this more = more
when_reported (r ∷ rs) this more = this ∷ more

-- the ticks at which something was reported
abbrev pub reporting : {F : Type 0} → ⦃f : Float F⦄ → Telemetry → List (Moment F) → List Reported
reporting t [] = []
reporting t (now ∷ rest) =
    let heard = (feed t now.bytes).0 in
    let (after, reports) = tick now.memory now.bindings heard now.time in
    let more = reporting after rest in
    when_reported reports (record { at = now.time; period = heard.period_ms }) more

-- times of uint32_t that do not run backwards
abbrev pub Ascending : {F : Type 0} → ℕ → List (Moment F) → Type 0
Ascending since [] = Unit
Ascending since (now ∷ rest) = (since ≤ now.time) × (now.time < 2 ^ 32) × Ascending now.time rest

-- each tick its period or more after the one before
abbrev pub Spaced : ℕ → List Reported → Type 0
Spaced since [] = Unit
Spaced since (r ∷ rest) = (since + r.period ≤ r.at) × Spaced r.at rest

abbrev pub SpacedAll : List Reported → Type 0
SpacedAll [] = Unit
SpacedAll (r ∷ rest) = Spaced r.at rest

earlier : (a b : ℕ) (rs : List Reported) → a ≤ b → Spaced b rs → Spaced a rs
earlier a b [] le h = tt
earlier a b (r ∷ rest) le (gap, others) = (omega arith, others)

sub32_lem : (a b : ℕ) → b ≤ a → a < 2 ^ 32 → sub32 a b ≡ a - b
sub32_lem a b le small = ground arith

module _ {F : Type 0} ⦃f : Float F⦄ where
  reported :
      (since : ℕ) (this : Reported) (reports : List (Report F)) (more : List Reported)
      → since + this.period ≤ this.at
      → Spaced this.at more
      → Spaced since (when_reported reports this more)
  reported since this [] more gap h = earlier since this.at more (omega arith) h
  reported since this (r ∷ rs) more gap h = (gap, h)

  tick_cases :
      (m : Memory F) (b : Bindings) (t : Telemetry) (ts : ℕ)
      → t.emit_primed ≡ true
      → t.last_emit_ms ≤ ts
      → ts < 2 ^ 32
      → (tick m b t ts ≡ (t, []))
        ⊎ ((t.last_emit_ms + t.period_ms ≤ ts)
            × (tick m b t ts ≡ (record t { last_emit_ms = ts }, emit m b t ts)))
  unfolding tick
  tick_cases m b t ts primed le small = ground (arith, sub32_lem ts t.last_emit_ms le small)

  first_cases :
      (m : Memory F) (b : Bindings) (t : Telemetry) (ts : ℕ)
      → t.emit_primed ≡ false
      → (tick m b t ts ≡ (t, []))
        ⊎ (tick m b t ts ≡ (record t { emit_primed = true; last_emit_ms = ts }, emit m b t ts))
  unfolding tick
  first_cases m b t ts primed = ground arith

  from_earlier :
      (a b : ℕ) (moments : List (Moment F)) → a ≤ b → Ascending b moments → Ascending a moments
  from_earlier a b [] le h = tt
  from_earlier a b (now ∷ rest) le (up, small, others) = (omega arith, small, others)

  spaced_since :
      (t : Telemetry) (moments : List (Moment F))
      → t.emit_primed ≡ true
      → Ascending t.last_emit_ms moments
      → Spaced t.last_emit_ms (reporting t moments)
  spaced_since t [] primed up = tt
  spaced_since t (now ∷ rest) primed (le, small, up) =
      let heard = (feed t now.bytes).0 in
      let ts = now.time in
      let (primed_kept, last) = feed-Paced t now.bytes in
      let from : heard.last_emit_ms ≤ ts = omega (arith, last, le) in
      let more : Spaced heard.last_emit_ms (reporting t (now ∷ rest)) =
        elim (tick_cases now.memory now.bindings heard ts (primed_kept ∙ primed) from small) [
          | inl idle ↦ rw idle (
              spaced_since heard rest (primed_kept ∙ primed)
                (from_earlier heard.last_emit_ms ts rest from up))
          | inr (gap, due) ↦ rw due (
              reported heard.last_emit_ms (record { at = ts; period = heard.period_ms })
                (emit now.memory now.bindings heard ts)
                (reporting (record heard { last_emit_ms = ts }) rest) gap
                (spaced_since (record heard { last_emit_ms = ts }) rest (primed_kept ∙ primed) up))
        ] in
      earlier t.last_emit_ms heard.last_emit_ms (reporting t (now ∷ rest)) (omega (arith, last))
        more

  reported_first :
      (this : Reported) (reports : List (Report F)) (more : List Reported)
      → Spaced this.at more
      → SpacedAll (when_reported reports this more)
  reported_first this [] [] h = tt
  reported_first this [] (r ∷ more) (gap, others) = others
  reported_first this (r ∷ rs) more h = h

  -- From the start, at whatever times of one 32-bit count the task ticks, and whatever is received, bound
  -- and measured before each tick, the ticks at which something is reported are spaced: each comes, after
  -- the one before it, no sooner than the period that is set at it. One such tick may give up to three
  -- reports.
  pub tick-Spaced :
      (t : Telemetry) (since : ℕ) (moments : List (Moment F))
      → t.emit_primed ≡ false
      → Ascending since moments
      → SpacedAll (reporting t moments)
  tick-Spaced t since [] fresh up = tt
  tick-Spaced t since (now ∷ rest) fresh (le, small, up) =
      let heard = (feed t now.bytes).0 in
      let ts = now.time in
      let unprimed : heard.emit_primed ≡ false = (feed-Paced t now.bytes).0 ∙ fresh in
      elim (first_cases now.memory now.bindings heard ts unprimed) [
        | inl idle ↦ rw idle (tick-Spaced heard ts rest unprimed up)
        | inr due ↦ rw due (
            reported_first (record { at = ts; period = heard.period_ms })
              (emit now.memory now.bindings heard ts)
              (reporting (record heard { emit_primed = true; last_emit_ms = ts }) rest)
              (spaced_since (record heard { emit_primed = true; last_emit_ms = ts }) rest refl up))
      ]
