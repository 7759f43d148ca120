-- ===== src/Control/Pid/Bounds.antt =====
-- What the limits of common/pid.c achieve, with any gains and any inputs.
use nuedc_control_car_freert.Prelude.{
  ◌≡◌, refl, true, false, Bool-cases, inl, inr, arith, List, [], ◌∷◌,
}
use nuedc_control_car_freert.Float.{Float, IsFloat, ◌≺◌, lit, zero_f, neg, abs, fmax}
use nuedc_control_car_freert.Control.Pid.{Pid, integral_limit, integrate, limit, update, reset}

module _ {F : Type 0} ⦃f : Float F⦄ ⦃laws : IsFloat F⦄ where
  -- x is neither above hi nor below lo
  abbrev pub IsWithin : F → F → F → Type 0
  IsWithin lo hi x = (hi ≺ x ≡ false) × (x ≺ lo ≡ false)

  pub limit-IsWithin : (lo hi x : F) → hi ≺ lo ≡ false → IsWithin lo hi (limit lo hi x)
  unfolding limit
  limit-IsWithin lo hi x ordered = elim (Bool-cases (hi ≺ x)) [
    | inl above ↦ rw (above, ordered) (laws.lt_irrefl hi, ordered)
    | inr inside ↦ elim (Bool-cases (x ≺ lo)) [
      | inl below ↦ rw (inside, below) (ordered, laws.lt_irrefl lo)
      | inr within ↦ rw (inside, within) (inside, within)
    ]
  ]

  span_nonneg : (a b : F) → fmax (abs a) (abs b) ≺ zero_f ≡ false
  span_nonneg a b = elim (laws.max_cases (abs a) (abs b)) [
    | inl e ↦ rw e (laws.abs_nonneg a)
    | inr e ↦ rw e (laws.abs_nonneg b)
  ]

  integral_limit_nonneg :
      (p : Pid F) → lit 1 8 ≺ abs p.ki ≡ true → integral_limit p ≺ zero_f ≡ false
  integral_limit_nonneg p h =
      laws.div_nonneg _ _ (span_nonneg p.out_min p.out_max)
        (laws.lt_trans _ _ _ (laws.lit_pos 1 8 (omega arith) (omega arith)) h)

  -- One update of a controller whose output limits are in order leaves an output that is not above
  -- the upper and not below the lower limit, whatever the state, the gains and the inputs are.
  pub output_bounds :
      (p : Pid F) (setpoint measure : F)
      → p.out_max ≺ p.out_min ≡ false
      → IsWithin p.out_min p.out_max (update p setpoint measure).last_output
  unfolding update
  output_bounds p setpoint measure ordered = limit-IsWithin p.out_min p.out_max _ ordered

  -- The integral does not wind up: with an integral gain above 1e-8 in magnitude, one update leaves
  -- the integral within plus and minus the larger magnitude of the two output limits divided by the
  -- magnitude of the gain, whatever the state and the inputs are.
  pub integral_bounds :
      (p : Pid F) (setpoint measure : F)
      → lit 1 8 ≺ abs p.ki ≡ true
      → IsWithin (neg (integral_limit p)) (integral_limit p) (update p setpoint measure).integral
  unfolding update integrate
  integral_bounds p setpoint measure h = rw h (
      limit-IsWithin (neg (integral_limit p)) (integral_limit p) _
        (laws.neg_below _ (integral_limit_nonneg p h)))

module _ {F : Type 0} ⦃f : Float F⦄ where
  -- the controller after updates with these setpoints and measurements
  abbrev pub run : Pid F → List (F × F) → Pid F
  run p [] = p
  run p ((s, m) ∷ rest) = run (update p s m) rest

  -- A reset forgets the past: two controllers that differ in everything but the gains and the output
  -- limits go through the same states after a reset, for every later sequence of inputs.
  pub reset_forgets :
      (p q : Pid F) (inputs : List (F × F))
      → p.kp ≡ q.kp
      → p.ki ≡ q.ki
      → p.kd ≡ q.kd
      → p.out_min ≡ q.out_min
      → p.out_max ≡ q.out_max
      → run (reset p) inputs ≡ run (reset q) inputs
  unfolding reset
  reset_forgets p q inputs e1 e2 e3 e4 e5 = rw (e1, e2, e3, e4, e5) refl
