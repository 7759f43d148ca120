-- ===== src/Vision/Board.antt =====
-- modules/vision/bsp_k230.c: the port and the pins of the camera. Each of them is none where the device
-- configuration does not define it, as the #ifdefs of the source have it.
use nuedc_control_car_freert.Prelude.{ℕ, Bool, true, false, not, List, [], Option, none, some}
use nuedc_control_car_freert.Platform.{Call, Reader}
use nuedc_control_car_freert.Platform.Gpio.{GpioPin, write_raw, read_raw}
use nuedc_control_car_freert.Platform.Uart.{
  UartPort, UartLib, enable_rx_interrupt, write_blocking, read_irq_byte,
}
use nuedc_control_car_freert.Telemetry.DebugUart.{Callback, call_back}

-- K230_UART_INST, K230_RESET_PIN and K230_READY_PIN
pub record K230 : Type 0 where
  pub uart : Option UartPort
  pub reset_pin : Option GpioPin
  pub ready_pin : Option GpioPin

abbrev pub set_reset : Option GpioPin → Bool → List Call
set_reset none high = []
set_reset (some p) high = write_raw p high

-- `BSP_K230_Reset`
unfoldable pub reset : K230 → Bool → List Call
reset k hold_reset = set_reset k.reset_pin (not hold_reset)

unfoldable pub is_ready : Reader → K230 → Bool
is_ready reader k = elim k.ready_pin [ none ↦ false | some p ↦ read_raw reader p ]

-- `BSP_K230_SetRxCallback`
unfoldable pub set_rx_callback : {S : Type 0} → Callback S → Callback S → Callback S
set_rx_callback cb before = cb

module _ {V : Type 0} (lib : UartLib V) (k : K230) where
  unfoldable pub init : V → V × List Call
  init v =
      (elim k.uart [ none ↦ v | some u ↦ enable_rx_interrupt lib u v ], set_reset k.reset_pin true)

  unfoldable pub send : (fuel : ℕ) → V → List ℕ → Option V
  send fuel v bytes = elim k.uart [ none ↦ some v | some u ↦ write_blocking lib u fuel v bytes ]

  -- `UART_K230_INST_IRQHandler`, which is there if the port is
  unfoldable pub irq : {S : Type 0} → UartPort → Callback S → V → S → V × S
  irq uart cb v s = let (w, byte) = read_irq_byte lib uart v in (w, call_back cb byte s)
