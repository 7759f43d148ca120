-- ===== src/Encoder/Counting.antt =====
-- What the control loop reads is what the interrupt counted: nothing is lost or counted twice.
use nuedc_control_car_freert.Prelude.{
  ℕ, ◌+◌, ◌^◌, ◌≤◌, ◌<◌, ◌≡◌, refl, ap, sym, ◌∙◌, Bool, List, [], ◌∷◌, arith, length,
}
use nuedc_control_car_freert.Prelude.Int.{
  ℤ, pos, ◌+ℤ◌, ◌-ℤ◌, nat_abs, +ℤ_abs, -ℤ_abs, +ℤ_zero, +ℤ_assoc, +ℤ_sub, zero-+ℤ, +ℤ_rest,
}
use nuedc_control_car_freert.Prelude.Words.{i32, i32_of_IsI32, i64_of_IsI64}
use nuedc_control_car_freert.Platform.QuadEncoder.{decode_step}
use nuedc_control_car_freert.Platform.QuadEncoder.Gray.{
  counted, decode_step_small, gray, sampled, net, counted-sampled,
}
use nuedc_control_car_freert.Encoder.{Wheel, on_edge, take_delta, fresh}

-- the interrupt samples a wheel, or the control loop takes its delta
pub data WheelEvent : Type 0 where
  edge : ℕ → WheelEvent
  read : WheelEvent

-- the wheel after the events, and the sum of the deltas that the reads returned
abbrev pub run : Wheel → List WheelEvent → Wheel × ℤ
run w [] = (w, pos 0)
run w (edge s ∷ es) = run (on_edge s w) es
run w (read ∷ es) = ((run (take_delta w).0 es).0, (take_delta w).1 +ℤ (run (take_delta w).0 es).1)

abbrev pub edges : List WheelEvent → List ℕ
edges [] = []
edges (edge s ∷ es) = s ∷ edges es
edges (read ∷ es) = edges es

on_edge-total :
    (s : ℕ) (w : Wheel) (n : ℕ)
    → nat_abs w.total ≤ n
    → n < 2 ^ 31
    → ((on_edge s w).total ≡ w.total +ℤ decode_step w.last_state s)
      × (nat_abs (on_edge s w).total ≤ n + 1)
unfolding on_edge
on_edge-total s w n h small = rw (i64_of_IsI64 sum (omega (arith, close))) (refl, close)
  where
    sum : ℤ
    sum = w.total +ℤ decode_step w.last_state s

    close : nat_abs sum ≤ n + 1
    close =
        omega (arith, +ℤ_abs w.total (decode_step w.last_state s), decode_step_small w.last_state s)

take_delta-exact :
    (w : Wheel) (n : ℕ)
    → nat_abs w.total ≤ n
    → nat_abs w.reported ≤ n
    → n < 2 ^ 30
    → (take_delta w).1 ≡ w.total -ℤ w.reported
unfolding take_delta
take_delta-exact w n ht hr small =
    ap i32 (i64_of_IsI64 difference (omega (arith, close)))
    ∙ i32_of_IsI32 difference (omega (arith, close))
  where
    difference : ℤ
    difference = w.total -ℤ w.reported

    close : nat_abs difference ≤ n + n
    close = omega (arith, -ℤ_abs w.total w.reported)

run_lem :
    (w : Wheel) (es : List WheelEvent) (n : ℕ)
    → nat_abs w.total ≤ n
    → nat_abs w.reported ≤ n
    → n + length es < 2 ^ 30
    → ((run w es).0.total ≡ w.total +ℤ counted w.last_state (edges es))
      × ((run w es).0.reported ≡ w.reported +ℤ (run w es).1)
unfolding on_edge take_delta
run_lem w [] n ht hr small = (sym (+ℤ_zero w.total), sym (+ℤ_zero w.reported))
run_lem w (edge s ∷ es) n ht hr small =
    let (now, close) = on_edge-total s w n ht (omega arith) in
    let rest = run_lem (on_edge s w) es (n + 1) close (omega arith) (omega arith) in
    (
      rest.0
          ∙ ap (λ t. t +ℤ counted s (edges es)) now
          ∙ +ℤ_assoc w.total (decode_step w.last_state s) (counted s (edges es)),
      rest.1,
    )
run_lem w (read ∷ es) n ht hr small =
    let rest = run_lem (take_delta w).0 es n ht ht (omega arith) in
    (
      rest.0,
      rest.1
          ∙ sym (+ℤ_sub w.reported w.total (run (take_delta w).0 es).1)
          ∙ +ℤ_assoc w.reported (w.total -ℤ w.reported) (run (take_delta w).0 es).1
          ∙ ap (λ d. w.reported +ℤ (d +ℤ (run (take_delta w).0 es).1))
              (sym (take_delta-exact w n ht hr (omega arith))),
    )

-- A wheel is reset at a point of the quadrature cycle and then turns by any quarter steps, each of
-- them sampled by the interrupt, while the control loop takes deltas at any moments, fewer than 2 ^ 30
-- events in all: the deltas taken and the pulses not yet taken add up to the net rotation.
pub deltas_account :
    (k : ℕ) (fs : List Bool) (es : List WheelEvent)
    → edges es ≡ sampled k fs
    → length es < 2 ^ 30
    → let (w, taken) = run (fresh (gray k)) es in taken +ℤ (w.total -ℤ w.reported) ≡ net fs
deltas_account k fs es e small =
    let start = fresh (gray k) in
    let taken = (run start es).1 in
    let (total, reported) = run_lem start es 0 (omega arith) (omega arith) (omega arith) in
    ap (λ r. taken +ℤ ((run start es).0.total -ℤ r)) (reported ∙ zero-+ℤ taken)
    ∙ +ℤ_rest taken (run start es).0.total
    ∙ total
    ∙ zero-+ℤ (counted (gray k) (edges es))
    ∙ ap (counted (gray k)) e
    ∙ counted-sampled k fs
