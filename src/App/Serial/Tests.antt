-- ===== src/App/Serial/Tests.antt =====
-- Keys at a concrete car.
use nuedc_control_car_freert.Prelude.{ℕ, ◌≡◌, refl, Bool, true, false, List, [], ◌∷◌, arith}
use nuedc_control_car_freert.App
use nuedc_control_car_freert.App.{
  World, Inputs, idle, fault, state_tick, take_stop, take_start, take_duty, control_round,
}
use nuedc_control_car_freert.Telemetry.Commands
use nuedc_control_car_freert.Telemetry.Commands.{codes}
use nuedc_control_car_freert.App.Serial.{start_key, stop_key, keys_decide}
use nuedc_control_car_freert.Platform.Uart.{UartLib}
use nuedc_control_car_freert.Platform.Uart.Queue.{IsReceiving}
use nuedc_control_car_freert.Telemetry.DebugUart.Traffic.{irqs}
use nuedc_control_car_freert.Float.Micro.{micro}
use nuedc_control_car_freert.App.Example.{inputs, at_rest}

-- a port that is the bytes coming in by it
abbrev some_left : List ℕ → Bool
some_left [] = false
some_left (b ∷ bs) = true

abbrev first : List ℕ → ℕ
first [] = 0
first (b ∷ bs) = b

abbrev others : List ℕ → List ℕ
others [] = []
others (b ∷ bs) = bs

abbrev keyboard : UartLib (List ℕ)
keyboard = record {
  is_busy = λ v. (v, false);
  transmit = λ v byte. v;
  pending_rx = λ v. (v, some_left v);
  receive = λ v. (others v, first v);
  enable_rx = λ v. v;
  enable_irq = λ v irqn. v;
}

keyboard-IsReceiving : IsReceiving keyboard (λ v. v)
keyboard-IsReceiving = record {
  look = λ v. refl;
  none_left = λ v h. rw h refl;
  some_left = λ v byte bytes h. rw h refl;
  receive = λ v byte bytes h. rw h (refl, refl);
}

-- a start and then a stop, with the IMU ready
keys_decide_example :
    let heard =
      (irqs keyboard (record { inst = 1; irqn = 15 }) 2 (115 ∷ 120 ∷ []) (Commands.start, [])).1 in
    (state_tick inputs 5 (record at_rest { requests = heard.requests })).0.ctx.state ≡ App.run
keys_decide_example =
    keys_decide keyboard (record { inst = 1; irqn = 15 }) refl (λ v. v) keyboard-IsReceiving 2
      (115 ∷ 120 ∷ []) (start_key ∷ stop_key ∷ []) Commands.start inputs 5 at_rest refl
      (omega arith) refl refl refl
