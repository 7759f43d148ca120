-- ===== src/Telemetry/DebugUart/Traffic.antt =====
-- What goes out by the debug port, and what comes in by its interrupt.
use nuedc_control_car_freert.Prelude.{
  ℕ, zero, suc, ◌+◌, ◌≤◌, ◌<◌, ◌≡◌, refl, sym, ap, ◌∙◌, true, false, List, [], ◌∷◌, ◌++◌, none,
  some, arith, ◌==◌, if◌then◌else◌, ltb, length,
}
use mathlib.Core.List.{append-nil, append_assoc}
use nuedc_control_car_freert.Platform.Uart.{UartPort, UartLib, write_blocking, read_irq_byte}
use nuedc_control_car_freert.Platform.Uart.Queue.{IsSending, IsReceiving, write_bytes_ends}
use nuedc_control_car_freert.Rtt
use nuedc_control_car_freert.Rtt.{UpBuffer}
use nuedc_control_car_freert.Rtt.Queue.{IsValid, pending, write_queues}
use nuedc_control_car_freert.Telemetry.Commands.{Telemetry, Reply, on_rx_byte}
use nuedc_control_car_freert.Telemetry.Commands.Lines.{feed}
use nuedc_control_car_freert.Telemetry.DebugUart.{call_back, send, irq}

-- `Telemetry_OnRxByte` as the callback, with the replies so far
abbrev pub on_command_byte : Telemetry × List Reply → ℕ → Telemetry × List Reply
on_command_byte s byte = let (t, replies) = on_rx_byte s.0 byte in (t, s.1 ++ replies)

-- the interrupt, so many times
abbrev pub irqs :
    {V : Type 0}
    → UartLib V
    → UartPort
    → ℕ
    → V
    → Telemetry × List Reply
    → V × Telemetry × List Reply
irqs lib port zero v s = (v, s.0, s.1)
irqs lib port (suc n) v s =
    let (w, after) = irq lib port (some on_command_byte) v s in irqs lib port n w after

module _ {V : Type 0} (lib : UartLib V) (port : UartPort) (bound : (port.inst == 0) ≡ false) where
  module _ (sent : V → List ℕ) (left : V → ℕ) (most : ℕ)
      (sending : IsSending lib sent left most) where
    -- A transmitter that is free again after at most `most` looks: a message is sent, with fuel above
    -- `most`; the port was given its bytes in order, and they follow the unread characters of the log
    -- if all of these together are fewer than the size of the log, which else keeps those it had.
    pub send_ends :
        (fuel : ℕ) (rtt : UpBuffer) (v : V) (bytes : List ℕ)
        → most < fuel
        → IsValid rtt
        → (log : UpBuffer) × (w : V) × (send lib port fuel rtt v bytes ≡ some (log, w))
          × (sent w ≡ sent v ++ bytes)
          × (pending log ≡ (
              if ltb (length (pending rtt) + length bytes) rtt.size
              then pending rtt ++ bytes
              else pending rtt))
    unfolding send write_blocking
    send_ends fuel rtt v bytes h valid =
        let (w, ends, told) = write_bytes_ends lib sent left most sending fuel v bytes h in
        (Rtt.write rtt bytes, w, rw (bound, ends) refl, told, (write_queues rtt bytes valid).0)

  module _ (incoming : V → List ℕ) (receiving : IsReceiving lib incoming) where
    read_one :
        (v : V)
        → (lib.pending_rx v).1 ≡ true
        → let (taken, byte) = lib.receive (lib.pending_rx v).0 in
          read_irq_byte lib port v ≡ (taken, some byte)
    unfolding read_irq_byte
    read_one v received = rw (bound, received) refl

    read_none :
        (v : V)
        → (lib.pending_rx v).1 ≡ false
        → read_irq_byte lib port v ≡ ((lib.pending_rx v).0, none)
    unfolding read_irq_byte
    read_none v nothing = rw (bound, nothing) refl

    irq_takes :
        (v : V) (byte : ℕ) (bytes : List ℕ) (s : Telemetry × List Reply)
        → incoming v ≡ byte ∷ bytes
        → let o = irq lib port (some on_command_byte) v s in
          (incoming o.0 ≡ bytes) × (o.1 ≡ on_command_byte s byte)
    unfolding irq
    irq_takes v byte bytes s e =
        let (rest, same) =
          receiving.receive (lib.pending_rx v).0 byte bytes (receiving.look v ∙ e) in
        let read = read_one v (receiving.some_left v byte bytes e) in
        (
          ap (λ r. incoming r.0) read ∙ rest,
          ap (λ r. call_back (some on_command_byte) r.1 s) read ∙ ap (on_command_byte s) same,
        )

    irq_idle :
        (v : V) (s : Telemetry × List Reply)
        → incoming v ≡ []
        → let o = irq lib port (some on_command_byte) v s in (incoming o.0 ≡ []) × (o.1 ≡ s)
    unfolding irq
    irq_idle v s e =
        let read = read_none v (receiving.none_left v e) in
        (
          ap (λ r. incoming r.0) read ∙ receiving.look v ∙ e,
          ap (λ r. call_back (some on_command_byte) r.1 s) read,
        )

    -- Interrupts for at least as many times as there are bytes coming in hand each of them to the
    -- command parser, in order and once; further interrupts change nothing.
    pub irqs-feed :
        (n : ℕ) (v : V) (bytes : List ℕ) (s : Telemetry × List Reply)
        → incoming v ≡ bytes
        → length bytes ≤ n
        → let o = irqs lib port n v s in
          (incoming o.0 ≡ []) × (o.1 ≡ (feed s.0 bytes).0) × (o.2 ≡ s.1 ++ (feed s.0 bytes).1)
    irqs-feed zero v [] s e h = (e, refl, sym (append-nil s.1))
    irqs-feed zero v (byte ∷ bytes) s e h = absurd (omega arith)
    irqs-feed (suc n) v [] s e h =
        let o = irq lib port (some on_command_byte) v s in
        let (rest, same) = irq_idle v s e in
        let (left, state, replies) = irqs-feed n o.0 [] o.1 rest (omega arith) in
        (left, state ∙ ap (λ p. p.0) same, replies ∙ ap (λ p. p.1 ++ []) same)
    irqs-feed (suc n) v (byte ∷ bytes) s e h =
        let o = irq lib port (some on_command_byte) v s in
        let (rest, same) = irq_takes v byte bytes s e in
        let (left, state, replies) = irqs-feed n o.0 bytes o.1 rest (omega (arith, h)) in
        (
          left,
          state ∙ ap (λ p. (feed p.0 bytes).0) same,
          replies
              ∙ ap (λ p. p.1 ++ (feed p.0 bytes).1) same
              ∙ append_assoc s.1 (on_rx_byte s.0 byte).1 (feed (on_rx_byte s.0 byte).0 bytes).1,
        )
