-- ===== src/Control/Chassis/Angle.antt =====
-- The loops of `wrap_pi_local`: how many turns they need, and what they leave.
use nuedc_control_car_freert.Prelude.{
  ℕ, zero, suc, ◌≤◌, ◌≡◌, refl, false, some, Bool-cases, inl, inr, arith,
}
use nuedc_control_car_freert.Float.{Float, ◌⊕◌, ◌⊖◌, ◌⊗◌, ◌≺◌, lit, neg}
use nuedc_control_car_freert.Control.Chassis.{pi, wrap_down, wrap_up, wrap_pi}

module _ {F : Type 0} ⦃f : Float F⦄ where
  -- x after n whole turns back, and on
  abbrev pub turns_back : ℕ → F → F
  turns_back zero x = x
  turns_back (suc n) x = turns_back n (x ⊖ lit 2 0 ⊗ pi)

  abbrev pub turns_on : ℕ → F → F
  turns_on zero x = x
  turns_on (suc n) x = turns_on n (x ⊕ lit 2 0 ⊗ pi)

  wrap_down-stop : (fuel : ℕ) (x : F) → pi ≺ x ≡ false → wrap_down fuel x ≡ some x
  unfolding wrap_down
  wrap_down-stop zero x h = rw h refl
  wrap_down-stop (suc fuel) x h = rw h refl

  wrap_up-stop : (fuel : ℕ) (x : F) → x ≺ neg pi ≡ false → wrap_up fuel x ≡ some x
  unfolding wrap_up
  wrap_up-stop zero x h = rw h refl
  wrap_up-stop (suc fuel) x h = rw h refl

  down_lem :
      (fuel n : ℕ) (x : F)
      → n ≤ fuel
      → pi ≺ turns_back n x ≡ false
      → (k : ℕ) × (k ≤ n)
        × (wrap_down fuel x ≡ some (turns_back k x))
        × (pi ≺ turns_back k x ≡ false)
  unfolding wrap_down
  down_lem fuel zero x p h = (0, omega arith, wrap_down-stop fuel x h, h)
  down_lem zero (suc n) x p h = absurd (omega arith)
  down_lem (suc fuel) (suc n) x p h = elim (Bool-cases (pi ≺ x)) [
    | inl above ↦
        let (k, small, stops, inside) = down_lem fuel n (x ⊖ lit 2 0 ⊗ pi) (omega arith) h in
        (suc k, omega arith, rw above stops, inside)
    | inr inside ↦ (0, omega arith, wrap_down-stop (suc fuel) x inside, inside)
  ]

  up_lem :
      (fuel n : ℕ) (x : F)
      → n ≤ fuel
      → turns_on n x ≺ neg pi ≡ false
      → (k : ℕ) × (k ≤ n) × (wrap_up fuel x ≡ some (turns_on k x)) × (turns_on k x ≺ neg pi ≡ false)
  unfolding wrap_up
  up_lem fuel zero x p h = (0, omega arith, wrap_up-stop fuel x h, h)
  up_lem zero (suc n) x p h = absurd (omega arith)
  up_lem (suc fuel) (suc n) x p h = elim (Bool-cases (x ≺ neg pi)) [
    | inl below ↦
        let (k, small, stops, inside) = up_lem fuel n (x ⊕ lit 2 0 ⊗ pi) (omega arith) h in
        (suc k, omega arith, rw below stops, inside)
    | inr inside ↦ (0, omega arith, wrap_up-stop (suc fuel) x inside, inside)
  ]

  -- The wrapping of an angle ends: if n turns back bring it down to at most pi, and m turns on bring
  -- each angle met on the way up to at least minus pi, then fuel for n and for m turns is enough. The
  -- result is the angle after some of these turns, and it is not below minus pi.
  pub wrap_pi_ends :
      (fuel n m : ℕ) (x : F)
      → n ≤ fuel
      → m ≤ fuel
      → pi ≺ turns_back n x ≡ false
      → ((k : ℕ) → k ≤ n → turns_on m (turns_back k x) ≺ neg pi ≡ false)
      → (i : ℕ) × (j : ℕ) × (i ≤ n)
        × (j ≤ m)
        × (wrap_pi fuel x ≡ some (turns_on j (turns_back i x)))
        × (turns_on j (turns_back i x) ≺ neg pi ≡ false)
  unfolding wrap_pi
  wrap_pi_ends fuel n m x p q high low =
      let (i, few, down, at_most) = down_lem fuel n x p high in
      let (j, few_on, up, at_least) = up_lem fuel m (turns_back i x) q (low i few) in
      (i, j, few, few_on, rw (down, up) refl, at_least)

  -- An angle from minus pi to pi is left as it is.
  pub wrap_pi_id :
      (fuel : ℕ) (x : F) → pi ≺ x ≡ false → x ≺ neg pi ≡ false → wrap_pi fuel x ≡ some x
  unfolding wrap_pi
  wrap_pi_id fuel x h l = rw (wrap_down-stop fuel x h, wrap_up-stop fuel x l) refl
