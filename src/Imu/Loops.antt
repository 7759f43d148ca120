-- ===== src/Imu/Loops.antt =====
-- Loops on fuel: `none` is a loop that has not ended. The fuel that is enough is the number of turns.
use nuedc_control_car_freert.Prelude.{
  ℕ, zero, suc, ◌≤◌, ◌≡◌, refl, Bool, false, Option, none, some, Bool-cases, inl, inr, arith,
  if◌then◌else◌,
}

-- x after n turns
abbrev pub turns : {A : Type 0} → (A → A) → ℕ → A → A
turns body zero x = x
turns body (suc n) x = turns body n (body x)

module _ {A : Type 0} (test : A → Bool) (body : A → A) where
  -- while (test(x)) x = body(x);
  unfoldable pub while_loop : ℕ → A → Option A
  while_loop zero x = if test x then none else some x
  while_loop (suc fuel) x = let rest = while_loop fuel (body x) in if test x then rest else some x

  stopped : (fuel : ℕ) (x : A) → test x ≡ false → while_loop fuel x ≡ some x
  unfolding while_loop
  stopped zero x h = rw h refl
  stopped (suc fuel) x h = rw h refl

  -- A loop whose test fails after n turns ends with fuel for n turns, at the first such place.
  pub while_loop-ends :
      (fuel n : ℕ) (x : A)
      → n ≤ fuel
      → test (turns body n x) ≡ false
      → (k : ℕ) × (k ≤ n)
        × (while_loop fuel x ≡ some (turns body k x))
        × (test (turns body k x) ≡ false)
  unfolding while_loop
  while_loop-ends fuel zero x p h = (0, omega arith, stopped fuel x h, h)
  while_loop-ends zero (suc n) x p h = absurd (omega arith)
  while_loop-ends (suc fuel) (suc n) x p h = elim (Bool-cases (test x)) [
    | inl runs ↦
        let (k, small, ends, stops) = while_loop-ends fuel n (body x) (omega arith) h in
        (suc k, omega arith, rw runs ends, stops)
    | inr stops ↦ (0, omega arith, stopped (suc fuel) x stops, stops)
  ]
