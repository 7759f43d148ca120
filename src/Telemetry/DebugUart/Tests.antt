-- ===== src/Telemetry/DebugUart/Tests.antt =====
-- Runs of the debug port.
use nuedc_control_car_freert.Prelude.{
  ℕ, ◌+◌, ◌≡◌, ◌≤◌, refl, Bool, true, false, List, [], ◌∷◌, ◌++◌, some, arith, length, ltb,
  if◌then◌else◌,
}
use nuedc_control_car_freert.Platform.Uart.{UartPort, UartLib, has_elapsed}
use nuedc_control_car_freert.Platform.Uart.Queue.{IsSending, IsReceiving}
use nuedc_control_car_freert.Rtt.{UpBuffer, empty}
use nuedc_control_car_freert.Rtt.Queue.{IsValid, pending}
use nuedc_control_car_freert.Telemetry.Commands.{start, codes}
use nuedc_control_car_freert.Telemetry.Commands.Lines.{feed}
use nuedc_control_car_freert.Telemetry.DebugUart.{send}
use nuedc_control_car_freert.Telemetry.DebugUart.Traffic.{irqs, send_ends, irqs-feed}

-- a port that is busy for one look after each byte
record Port : Type 0 where
  busy : Bool
  sent : List ℕ
  incoming : List ℕ

abbrev some_left : List ℕ → Bool
some_left [] = false
some_left (b ∷ bs) = true

abbrev first : List ℕ → ℕ
first [] = 0
first (b ∷ bs) = b

abbrev others : List ℕ → List ℕ
others [] = []
others (b ∷ bs) = bs

abbrev port_lib : UartLib Port
port_lib = record {
  is_busy = λ v. (record v { busy = false }, v.busy);
  transmit = λ v byte. record v { busy = true; sent = v.sent ++ (byte ∷ []) };
  pending_rx = λ v. (v, some_left v.incoming);
  receive = λ v. (record v { incoming = others v.incoming }, first v.incoming);
  enable_rx = λ v. v;
  enable_irq = λ v irqn. v;
}

abbrev left : Port → ℕ
left v = if v.busy then 1 else 0

left_bound : (busy : Bool) → (if busy then 1 else 0) ≤ 1
left_bound true = omega arith
left_bound false = omega arith

port-IsSending : IsSending port_lib (λ v. v.sent) left 1
port-IsSending = record {
  look = λ v. refl;
  busy = λ v h. rw h (omega arith);
  transmit = λ v byte. refl;
  bound = λ v. left_bound v.busy;
}

port-IsReceiving : IsReceiving port_lib (λ v. v.incoming)
port-IsReceiving = record {
  look = λ v. refl;
  none_left = λ v h. rw h refl;
  some_left = λ v byte bytes h. rw h refl;
  receive = λ v byte bytes h. rw h (refl, refl);
}

abbrev debug_port : UartPort
debug_port = record { inst = 1; irqn = 15 }

abbrev quiet_port : Port
quiet_port = record { busy = true; sent = []; incoming = codes "$RATE,50" ++ 10 ∷ [] }

irqs-feed_example :
    let o = irqs port_lib debug_port 12 quiet_port (start, []) in
    (o.0.incoming ≡ [])
    × (o.1 ≡ (feed start (codes "$RATE,50" ++ 10 ∷ [])).0)
    × (o.2 ≡ [] ++ (feed start (codes "$RATE,50" ++ 10 ∷ [])).1)
irqs-feed_example =
    irqs-feed port_lib debug_port refl (λ v. v.incoming) port-IsReceiving 12 quiet_port
      (codes "$RATE,50" ++ 10 ∷ []) (start, []) refl (omega arith)

empty-IsValid : IsValid empty
empty-IsValid = record { length = refl; wr = omega arith; rd = omega arith }

send_ends_example :
    (log : UpBuffer) × (w : Port) × (send port_lib debug_port 2 empty quiet_port (codes "OK")
      ≡ some (log, w))
    × (w.sent ≡ codes "OK")
    × (pending log ≡ (
        if ltb (length (pending empty) + 2) 4096
        then pending empty ++ codes "OK"
        else pending empty))
send_ends_example =
    send_ends port_lib debug_port refl (λ v. v.sent) left 1 port-IsSending 2 empty quiet_port
      (codes "OK") (omega arith) empty-IsValid

-- 20 ms passed over the wrap of the tick
elapsed_over_wrap : has_elapsed 10 4294967286 20 ≡ true
unfolding has_elapsed
elapsed_over_wrap = refl
