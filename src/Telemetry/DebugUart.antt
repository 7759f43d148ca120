-- ===== src/Telemetry/DebugUart.antt =====
-- modules/telemetry/bsp_uart.c: the port that the reports go out by and the commands come in by. A
-- callback is a function of the state behind it; what cannot be told, a wait without end or a read
-- beyond the buffer, is none.
pub mod Traffic
mod Tests
use nuedc_control_car_freert.Prelude.{
  ℕ, Bool, List, Option, none, some, and_then, leb, take, length, ltb, if◌then◌else◌,
}
use nuedc_control_car_freert.Prelude.Int.{ℤ, pos, ltb_ℤ}
use nuedc_control_car_freert.Prelude.Words.{to_word}
use nuedc_control_car_freert.Platform.Uart.{
  UartPort, UartLib, enable_rx_interrupt, write_blocking, read_irq_byte,
}
use nuedc_control_car_freert.Rtt
use nuedc_control_car_freert.Rtt.{UpBuffer}

-- `uart_rx_cb_t` and `s_cb_dbg`
abbrev pub Callback : Type 0 → Type 0
Callback S = Option (S → ℕ → S)

-- the callback that is set, whatever the port and the one before
unfoldable pub set_rx_callback : {S : Type 0} → Bool → Callback S → Callback S → Callback S
set_rx_callback is_openmv cb before = cb

-- `if (s_cb_dbg) s_cb_dbg(b);` where there is a byte
abbrev pub call_back : {S : Type 0} → Callback S → Option ℕ → S → S
call_back cb none s = s
call_back none (some byte) s = s
call_back (some callback) (some byte) s = callback s byte

module _ {V : Type 0} (lib : UartLib V) (debug_uart : UartPort) where
  unfoldable pub init : V → V
  init v = enable_rx_interrupt lib debug_uart v

  -- the log and the port after the call
  unfoldable pub send : (fuel : ℕ) → UpBuffer → V → List ℕ → Option (UpBuffer × V)
  send fuel rtt v bytes =
      let logged = Rtt.write rtt bytes in
      and_then (write_blocking lib debug_uart fuel v bytes) (λ w. some (logged, w))

  -- `buf` is the buffer after vsnprintf, and `n` what that returned
  unfoldable pub printf : (fuel : ℕ) → UpBuffer → V → List ℕ → ℤ → Option (UpBuffer × V)
  printf fuel rtt v buf n =
      let len = to_word 65536 n in
      if ltb_ℤ (pos 0) n
      then (if leb len (length buf) then send fuel rtt v (take len buf) else none)
      else some (rtt, v)

  -- `UART_DEBUG_INST_IRQHandler`
  unfoldable pub irq : {S : Type 0} → Callback S → V → S → V × S
  irq cb v s = let (w, byte) = read_irq_byte lib debug_uart v in (w, call_back cb byte s)
