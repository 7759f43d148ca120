-- ===== src/Platform/Gpio.antt =====
-- drv_gpio.c. A null `DrvGpioPin` pointer does not occur: every caller passes a field of an object.
use nuedc_control_car_freert.Prelude.{ℕ, Bool, false, not, List, [], ◌∷◌, ◌==◌, if◌then◌else◌}
use nuedc_control_car_freert.Platform.{Call, set_pins, clear_pins, toggle_pins, Reader}

pub record GpioPin : Type 0 where
  pub port : ℕ
  pub pin : ℕ
  pub active_low : Bool

unfoldable pub write_raw : GpioPin → Bool → List Call
write_raw p high =
    if p.port == 0
    then []
    else if high
    then set_pins p.port p.pin ∷ []
    else clear_pins p.port p.pin ∷ []

unfoldable pub read_raw : Reader → GpioPin → Bool
read_raw read_pins p = if p.port == 0 then false else not (read_pins p.port p.pin == 0)

unfoldable pub write_active : GpioPin → Bool → List Call
write_active p active = write_raw p (if p.active_low then not active else active)

unfoldable pub read_active : Reader → GpioPin → Bool
read_active read_pins p = let high = read_raw read_pins p in if p.active_low then not high else high

unfoldable pub toggle : GpioPin → List Call
toggle p = if p.port == 0 then [] else toggle_pins p.port p.pin ∷ []
