-- ===== src/Encoder/Tests.antt =====
-- Runs of the wheel encoders, and the theorems at concrete inputs.
use nuedc_control_car_freert.Prelude.{◌≡◌, refl, true, false, List, [], ◌∷◌, arith}
use nuedc_control_car_freert.Prelude.Int.{pos, ◌+ℤ◌, ◌-ℤ◌}
use nuedc_control_car_freert.Platform.QuadEncoder.{decode_step}
use nuedc_control_car_freert.Platform.QuadEncoder.Gray.{gray, net}
use nuedc_control_car_freert.Encoder.{
  fresh, init, group1_irq, get_delta, EncoderPins, encoder_state,
}
use nuedc_control_car_freert.Encoder.Counting.{WheelEvent, edge, read, run, deltas_account}

abbrev left_pins : EncoderPins
left_pins = record { port = 7; a_pin = 0x8000; b_pin = 0x10000 }

abbrev right_pins : EncoderPins
right_pins = record { port = 7; a_pin = 0x4000000; b_pin = 0x8000000 }

one_interrupt :
    let e = init (λ port mask. 0) left_pins right_pins in
    (get_delta (group1_irq (λ port mask. 0x10000) left_pins right_pins 0x10000 e) 0).1 ≡ pos 1
unfolding init group1_irq get_delta encoder_state decode_step ◌+ℤ◌ ◌-ℤ◌
one_interrupt = refl

abbrev three_steps : List WheelEvent
three_steps = edge 2 ∷ edge 0 ∷ read ∷ edge 2 ∷ []

deltas_account_example :
    let (w, taken) = run (fresh (gray 2)) three_steps in
    taken +ℤ (w.total -ℤ w.reported) ≡ net (true ∷ true ∷ false ∷ [])
deltas_account_example = deltas_account 2 (true ∷ true ∷ false ∷ []) three_steps refl (omega arith)
