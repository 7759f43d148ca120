-- ===== src/Platform/Uart.antt =====
-- drv_uart.c and drv_time.c. What DriverLib does with the port is a parameter over its own state; the
-- data pointers are not null. The wait for a free transmitter has no bound in the source, so it runs
-- on fuel: none is a wait that took longer.
pub mod Queue
use nuedc_control_car_freert.Prelude.{
  ℕ, zero, suc, Bool, true, false, List, [], ◌∷◌, Option, none, some, and_then, leb, ◌==◌,
  if◌then◌else◌,
}
use nuedc_control_car_freert.Prelude.Words.{sub32}

-- `DrvUartPort`; 0 is the null pointer
pub record UartPort : Type 0 where
  pub inst : ℕ
  pub irqn : ℕ

pub record UartLib (V : Type 0) : Type 0 where
  pub is_busy : V → V × Bool
  pub transmit : V → ℕ → V
  -- whether DL_UART_Main_getPendingInterrupt gives DL_UART_MAIN_IIDX_RX
  pub pending_rx : V → V × Bool
  pub receive : V → V × ℕ
  -- DL_UART_Main_enableInterrupt for RX, and NVIC_EnableIRQ
  pub enable_rx : V → V
  pub enable_irq : V → ℕ → V

module _ {V : Type 0} (lib : UartLib V) where
  unfoldable pub enable_rx_interrupt : UartPort → V → V
  enable_rx_interrupt uart v =
      if uart.inst == 0 then v else lib.enable_irq (lib.enable_rx v) uart.irqn

  -- while (DL_UART_Main_isBusy(...)) { }
  unfoldable pub wait_free : (fuel : ℕ) → V → Option V
  wait_free zero v = none
  wait_free (suc fuel) v =
      let (w, busy) = lib.is_busy v in let rest = wait_free fuel w in if busy then rest else some w

  -- the loop of the write
  unfoldable pub write_bytes : (fuel : ℕ) → V → List ℕ → Option V
  write_bytes fuel v [] = some v
  write_bytes fuel v (byte ∷ bytes) =
      and_then (wait_free fuel v) (λ w. write_bytes fuel (lib.transmit w byte) bytes)

  unfoldable pub write_blocking : UartPort → (fuel : ℕ) → V → List ℕ → Option V
  write_blocking uart fuel v bytes = if uart.inst == 0 then some v else write_bytes fuel v bytes

  -- the byte, where one was received
  unfoldable pub read_irq_byte : UartPort → V → V × Option ℕ
  read_irq_byte uart v =
      let (w, received) = lib.pending_rx v in
      let (taken, byte) = lib.receive w in
      if uart.inst == 0 then (v, none) else if received then (taken, some byte) else (w, none)

-- `Drv_Time_Millis`, which reads `g_tick_ms`
abbrev pub millis : ℕ → ℕ
millis g_tick_ms = g_tick_ms

unfoldable pub has_elapsed : ℕ → (start_ms period_ms : ℕ) → Bool
has_elapsed g_tick_ms start_ms period_ms = leb period_ms (sub32 (millis g_tick_ms) start_ms)
