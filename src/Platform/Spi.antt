-- ===== src/Platform/Spi.antt =====
-- drv_spi.c. What DriverLib does with the bus is a parameter over its own state. Waits are bounded by
-- the limit of the bus; the loop that empties the receive FIFO is not, so it runs on fuel.
pub mod Transfer
mod Tests
use nuedc_control_car_freert.Prelude.{
  ℕ, zero, suc, ◌+◌, ◌%◌, Bool, true, false, ◌&&◌, not, List, [], ◌∷◌, Option, none, some, and_then,
  bit_and, bit_or, ltb, ◌==◌, length, if◌then◌else◌,
}

-- `DrvSpiBus`
pub record SpiBus : Type 0 where
  pub inst : ℕ
  pub cs_port : ℕ
  pub cs_pin : ℕ
  pub wait_limit : ℕ

pub record SpiLib (V : Type 0) : Type 0 where
  -- DL_SPI_isBusy, DL_SPI_isTXFIFOFull and DL_SPI_isRXFIFOEmpty
  pub is_busy : V → V × Bool
  pub tx_full : V → V × Bool
  pub rx_empty : V → V × Bool
  -- DL_SPI_transmitData8 and DL_SPI_receiveData8
  pub transmit : V → ℕ → V
  pub receive : V → V × ℕ
  -- the chip select pin set high or low, with the delay after it
  pub set_cs : V → Bool → V

-- wait_limit, by default DRV_SPI_DEFAULT_WAIT_LIMIT
abbrev pub wait_limit : SpiBus → ℕ
wait_limit bus = if bus.wait_limit == 0 then 100000 else bus.wait_limit

-- the bus and the data of `valid`, which are not null
abbrev pub is_valid : SpiBus → ℕ → Bool
is_valid bus len =
    not (bus.inst == 0) && not (bus.cs_port == 0) && not (bus.cs_pin == 0) && not (len == 0)

module _ {V : Type 0} where
  -- while (test) { if (timeout-- == 0u) return -1; }: whether it ended in time
  unfoldable pub wait_while : (V → V × Bool) → ℕ → V → V × Bool
  wait_while test zero v = let (w, waiting) = test v in (w, not waiting)
  wait_while test (suc timeout) v =
      let (w, waiting) = test v in
      let rest = wait_while test timeout w in if waiting then rest else (w, true)

module _ {V : Type 0} (lib : SpiLib V) (bus : SpiBus) where
  unfoldable pub deselect : V → V
  deselect v = if not (bus.cs_port == 0) && not (bus.cs_pin == 0) then lib.set_cs v true else v

  unfoldable pub drain_rx : ℕ → V → Option V
  drain_rx zero v = none
  drain_rx (suc fuel) v =
      let (w, empty) = lib.rx_empty v in
      let rest = drain_rx fuel (lib.receive w).0 in if empty then some w else rest

  -- the byte received, if both waits end in time
  unfoldable pub transfer8 : V → ℕ → V × Option ℕ
  transfer8 v tx =
      let (free, can_send) = wait_while lib.tx_full (wait_limit bus) v in
      let (full, came) = wait_while lib.rx_empty (wait_limit bus) (lib.transmit free tx) in
      let (taken, rx) = lib.receive full in
      if not can_send then (free, none) else if not came then (full, none) else (taken, some rx)

  -- the bytes one after the other, up to the first that fails: those received, and whether all were
  unfoldable pub transfer_all : V → List ℕ → V × List ℕ × Bool
  transfer_all v [] = (v, [], true)
  transfer_all v (tx ∷ more) =
      let (w, rx) = transfer8 v tx in
      let (last, rest, done) = transfer_all w more in
      elim rx [ none ↦ (w, [], false) | some byte ↦ (last, byte ∷ rest, done) ]

  -- the register byte, the other bytes and the wait for the end, with the chip selected
  unfoldable pub exchange : V → ℕ → List ℕ → V × List ℕ × Bool
  exchange v first bytes =
      let (named, answer) = transfer8 v first in
      let (sent, received, done) = transfer_all named bytes in
      let (quiet, ended) = wait_while lib.is_busy (wait_limit bus) sent in
      elim answer [
        | none ↦ (named, [], false)
        | some byte ↦ if done then (quiet, received, ended) else (sent, received, false)
      ]

  -- the body that the two functions share: the bytes received, and whether the status is 0
  unfoldable pub selected_exchange : ℕ → V → ℕ → List ℕ → Option (V × List ℕ × Bool)
  selected_exchange fuel v first bytes =
      let (quiet, ended) = wait_while lib.is_busy (wait_limit bus) v in
      if not (is_valid bus (length bytes))
      then some (v, [], false)
      else if not ended
      then some (quiet, [], false)
      else and_then (drain_rx fuel quiet) (λ drained.
        let (after, received, done) = exchange (lib.set_cs drained false) first bytes in
        some (deselect after, received, done))

  -- DRV_SPI_WRITE_MASK and DRV_SPI_READ_BIT mark the direction
  unfoldable pub write_reg8 : ℕ → V → ℕ → List ℕ → Option (V × List ℕ × Bool)
  write_reg8 fuel v reg bytes = selected_exchange fuel v (bit_and reg 127) bytes

  -- `zeros` are the bytes 0 that are sent, one for each byte that is read
  unfoldable pub read_reg8 : ℕ → V → ℕ → List ℕ → Option (V × List ℕ × Bool)
  read_reg8 fuel v reg zeros = selected_exchange fuel v (bit_or reg 128) zeros
