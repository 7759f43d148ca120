-- ===== src/Platform.antt =====
-- platform/mspm0g3507/drivers: the drivers over TI's DriverLib. DriverLib itself is not modelled. For
-- pins and timers, a driver's output is the list of the DriverLib calls that it makes, in order, and
-- what it reads of a port is given by a function of the port and the pin mask; for the buses (I2c, Spi
-- and Uart) the library is a record of functions on a state of its own.
pub mod Gpio
pub mod I2c
pub mod Pwm
pub mod HBridge
pub mod QuadEncoder
pub mod Spi
pub mod Uart
use nuedc_control_car_freert.Prelude.{
  ℕ, Bool, true, false, ◌&&◌, List, [], ◌∷◌, Option, none, some, ◌==◌, if◌then◌else◌,
}

-- Ports, timers and buses are addresses; 0 is the null pointer.
pub data Call : Type 0 where
  set_pins : ℕ → ℕ → Call
  clear_pins : ℕ → ℕ → Call
  toggle_pins : ℕ → ℕ → Call
  start_counter : ℕ → Call
  set_compare : ℕ → ℕ → ℕ → Call

-- `DL_GPIO_readPins(port, pins)`
abbrev pub Reader : Type 0
Reader = ℕ → ℕ → ℕ

-- The level that a list of calls leaves a pin at: what the last `DL_GPIO_setPins` or
-- `DL_GPIO_clearPins` of that pin commands.
abbrev pub level : ℕ → ℕ → List Call → Option Bool → Option Bool
level port pin [] l = l
level port pin (set_pins p q ∷ cs) l =
    level port pin cs (if p == port && q == pin then some true else l)
level port pin (clear_pins p q ∷ cs) l =
    level port pin cs (if p == port && q == pin then some false else l)
level port pin (toggle_pins p q ∷ cs) l = level port pin cs l
level port pin (start_counter t ∷ cs) l = level port pin cs l
level port pin (set_compare t v c ∷ cs) l = level port pin cs l

-- The compare value that a list of calls leaves a timer channel with.
abbrev pub compare_of : ℕ → ℕ → List Call → Option ℕ → Option ℕ
compare_of timer channel [] v = v
compare_of timer channel (set_compare t x c ∷ cs) v =
    compare_of timer channel cs (if t == timer && c == channel then some x else v)
compare_of timer channel (set_pins p q ∷ cs) v = compare_of timer channel cs v
compare_of timer channel (clear_pins p q ∷ cs) v = compare_of timer channel cs v
compare_of timer channel (toggle_pins p q ∷ cs) v = compare_of timer channel cs v
compare_of timer channel (start_counter t ∷ cs) v = compare_of timer channel cs v
