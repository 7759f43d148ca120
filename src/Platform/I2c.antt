-- ===== src/Platform/I2c.antt =====
-- drv_i2c.c. What DriverLib does with the controller is a parameter over its own state. A call gives
-- whether it returned 0; the pointers that a caller hands over are not null, and a buffer is the list
-- of the bytes that are read from it.
pub mod Outcomes
pub mod Ready
mod Tests
use nuedc_control_car_freert.Prelude.{
  ℕ, zero, suc, ◌+◌, ◌-◌, ◌*◌, ◌^◌, Bool, true, false, ◌&&◌, ◌||◌, not, List, [], ◌∷◌, bit_or, ltb,
  ◌==◌, length, if◌then◌else◌,
}
use nuedc_control_car_freert.Prelude.Words.{u8, u16, u32}

-- the bits DL_I2C_CONTROLLER_STATUS_BUSY, IDLE, ERROR and BUSY_BUS of the status register
pub record I2cStatus : Type 0 where
  pub busy : Bool
  pub idle : Bool
  pub error : Bool
  pub busy_bus : Bool

pub data I2cRegister : Type 0 where
  msa : I2cRegister
  mctr : I2cRegister

-- I2C_MSA_SADDR_OFS and the other constants that the start of a register read is put together from
pub record I2cFields : Type 0 where
  pub saddr_ofs : ℕ
  pub direction_rx : ℕ
  pub msa_mask : ℕ
  pub mblen_ofs : ℕ
  -- I2C_MCTR_BURSTRUN_ENABLE, START_ENABLE, RD_ON_TXEMPTY_ENABLE and STOP_ENABLE
  pub burstrun : ℕ
  pub start : ℕ
  pub rd_on_txempty : ℕ
  pub stop : ℕ
  pub mctr_mask : ℕ

pub record I2cLib (V : Type 0) : Type 0 where
  pub status : V → V × I2cStatus
  pub reset_transfer : V → V
  pub disable : V → V
  pub enable : V → V
  pub flush_tx : V → V
  -- how many of the bytes the FIFO took
  pub fill_tx : V → List ℕ → V × ℕ
  -- DL_I2C_startControllerTransfer to an address in direction TX, of that many bytes
  pub start_tx : V → ℕ → ℕ → V
  pub rx_empty : V → V × Bool
  pub receive : V → V × ℕ
  -- DL_Common_updateReg: the value and the mask
  pub update_reg : V → I2cRegister → ℕ → ℕ → V
  pub fields : I2cFields

-- `DrvI2cBus`
pub record I2cBus : Type 0 where
  pub inst : ℕ
  pub wait_limit : ℕ
  pub tx_fifo_bytes : ℕ

abbrev pub wait_limit : I2cBus → ℕ
wait_limit bus = if bus.wait_limit == 0 then 100000 else bus.wait_limit

abbrev pub tx_fifo_bytes : I2cBus → ℕ
tx_fifo_bytes bus = if bus.tx_fifo_bytes == 0 then 8 else bus.tx_fifo_bytes

abbrev pub valid_bus : I2cBus → Bool
valid_bus bus = not (bus.inst == 0)

-- the condition under which the wait goes on
abbrev pub keeps_waiting : I2cStatus → Bool
keeps_waiting s = not s.idle || (s.busy || s.busy_bus)

-- the timeout while `left` bytes are to come
abbrev pub read_timeout : I2cBus → ℕ → ℕ
read_timeout bus left = u32 (wait_limit bus * (left + 1))

module _ {V : Type 0} (lib : I2cLib V) where
  -- the loop of the wait with `timeout` left
  unfoldable pub wait_rounds : ℕ → V → V × Bool
  wait_rounds zero v = let (w, status) = lib.status v in (lib.reset_transfer w, false)
  wait_rounds (suc timeout) v =
      let (w, status) = lib.status v in
      let rest = wait_rounds timeout w in
      if status.error
      then (lib.reset_transfer w, false)
      else if keeps_waiting status
      then rest
      else (w, true)

  unfoldable pub wait_idle : I2cBus → V → V × Bool
  wait_idle bus v = if valid_bus bus then wait_rounds (wait_limit bus) v else (v, false)

  -- the FIFO is filled after a reset, and the controller is idle again
  unfoldable pub prepare : I2cBus → V → List ℕ → V × Bool
  prepare bus v bytes =
      let (filled, count) = lib.fill_tx (lib.reset_transfer v) bytes in
      if count == length bytes then wait_idle bus filled else (lib.reset_transfer filled, false)

  unfoldable pub write : I2cBus → V → ℕ → List ℕ → V × Bool
  write bus v addr bytes =
      let (ready, prepared) = prepare bus v bytes in
      if not (valid_bus bus) || (length bytes == 0 || ltb (tx_fifo_bytes bus) (length bytes))
      then (v, false)
      else if prepared
      then wait_idle bus (lib.start_tx ready addr (length bytes))
      else (ready, false)

  -- `tx` has eight bytes
  unfoldable pub write_reg8 : I2cBus → V → ℕ → ℕ → List ℕ → V × Bool
  write_reg8 bus v addr reg bytes =
      if not (valid_bus bus)
        || (ltb (u16 (tx_fifo_bytes bus - 1)) (length bytes) || ltb 7 (length bytes))
      then (v, false)
      else write bus v addr (reg ∷ bytes)

  unfoldable pub start_register_read : V → ℕ → ℕ → V
  start_register_read v addr len =
      let f = lib.fields in
      let named =
        lib.update_reg v I2cRegister.msa (bit_or (u32 (addr * 2 ^ f.saddr_ofs)) f.direction_rx)
          f.msa_mask in
      lib.update_reg named I2cRegister.mctr
        (bit_or
          (bit_or (bit_or (bit_or (u32 (len * 2 ^ f.mblen_ofs)) f.burstrun) f.start)
            f.rd_on_txempty)
          f.stop)
        f.mctr_mask

  -- the loop of the read: the bytes that came, and whether all did
  unfoldable pub read_bytes : I2cBus → (left timeout : ℕ) → V → V × List ℕ × Bool
  read_bytes bus zero timeout v = (v, [], true)
  read_bytes bus (suc left) zero v =
      let (w, status) = lib.status v in
      let (looked, empty) = lib.rx_empty w in
      let (taken, byte) = lib.receive looked in
      let next = read_bytes bus left (read_timeout bus left) taken in
      if status.error
      then (lib.reset_transfer w, [], false)
      else if empty
      then (lib.reset_transfer looked, [], false)
      else (next.0, byte ∷ next.1, next.2)
  read_bytes bus (suc left) (suc timeout) v =
      let (w, status) = lib.status v in
      let (looked, empty) = lib.rx_empty w in
      let (taken, byte) = lib.receive looked in
      let next = read_bytes bus left (read_timeout bus left) taken in
      let rest = read_bytes bus (suc left) timeout looked in
      if status.error
      then (lib.reset_transfer w, [], false)
      else if empty
      then rest
      else (next.0, byte ∷ next.1, next.2)

  -- the read once the register is in the FIFO
  unfoldable pub read_prepared : I2cBus → V → ℕ → ℕ → V × List ℕ × Bool
  read_prepared bus v addr len =
      let (w, bytes, all) =
        read_bytes bus len (read_timeout bus len) (start_register_read v addr len) in
      let (quiet, ended) = wait_idle bus w in
      if all then (quiet, bytes, ended) else (w, bytes, false)

  unfoldable pub read_reg8 : I2cBus → V → ℕ → ℕ → ℕ → V × List ℕ × Bool
  read_reg8 bus v addr reg len =
      let (ready, prepared) = prepare bus v (reg ∷ []) in
      let read = read_prepared bus ready addr len in
      if not (valid_bus bus) || (len == 0 || ltb 4095 len)
      then (v, [], false)
      else if prepared
      then read
      else (ready, [], false)
