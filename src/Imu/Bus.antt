-- ===== src/Imu/Bus.antt =====
-- How the vendor's driver reaches the chip: modules/imu/bsp_imu.c, and the callbacks of
-- device/dev_icm45688.c that pass on its transfers and its waits. The pointers are not null.
use nuedc_control_car_freert.Prelude.{
  ℕ, zero, suc, ◌+◌, ◌-◌, ◌*◌, ◌/◌, ◌<◌, ◌≡◌, Bool, false, Bool-cases, inl, inr, not, List, [], ◌∷◌,
  Option, some, arith, bit_and, ltb, ◌==◌, length, if◌then◌else◌,
}
use nuedc_control_car_freert.Platform.{Reader}
use nuedc_control_car_freert.Platform.Spi.{SpiBus, SpiLib, write_reg8, read_reg8}

-- `s_imu_spi`
abbrev pub imu_bus : (inst cs_port cs_pin : ℕ) → SpiBus
imu_bus inst cs_port cs_pin = record {
  inst = inst;
  cs_port = cs_port;
  cs_pin = cs_pin;
  wait_limit = 100000;
}

-- `BSP_IMU_DataReady`, of the pin IMU_INT_PIN
unfoldable pub data_ready : Reader → (port pin : ℕ) → Bool
data_ready reader port pin = not (bit_and (reader port pin) pin == 0)

module _ {V : Type 0} (lib : SpiLib V) (bus : SpiBus) where
  -- `icm_spi_write`: whether it returns 0
  unfoldable pub icm_spi_write : (fuel : ℕ) → V → ℕ → List ℕ → Option (V × List ℕ × Bool)
  icm_spi_write fuel v reg buf =
      if length buf == 0 then some (v, [], false) else write_reg8 lib bus fuel v reg buf

  -- `icm_spi_read`; `zeros` has as many bytes as are read
  unfoldable pub icm_spi_read : (fuel : ℕ) → V → ℕ → List ℕ → Option (V × List ℕ × Bool)
  icm_spi_read fuel v reg zeros =
      if bus.inst == 0
      then some (v, [], false)
      else if length zeros == 0
      then some (v, [], false)
      else read_reg8 lib bus fuel v reg zeros

-- ICM45688_MSPM0_CPU_HZ / 1000000u
abbrev pub cycles_per_us : ℕ
cycles_per_us = 32000000 / 1000000

-- `icm_sleep_us`: the cycles of each `delay_cycles`; a round takes 1000 of the microseconds
unfoldable pub icm_sleep_us : (fuel us : ℕ) → List ℕ
icm_sleep_us zero us = []
icm_sleep_us (suc fuel) us =
    let rest = icm_sleep_us fuel (us - 1000) in
    if ltb 1000 us
    then (cycles_per_us * 1000) ∷ rest
    else if ltb 0 us
    then (cycles_per_us * us) ∷ []
    else []

abbrev total : List ℕ → ℕ
total [] = 0
total (n ∷ ns) = n + total ns

-- With fuel above the time, the delays of a sleep add up to 32 cycles for each microsecond.
icm_sleep_us_lem : (fuel us : ℕ) → us < fuel → total (icm_sleep_us fuel us) ≡ 32 * us
unfolding icm_sleep_us
icm_sleep_us_lem zero us h = absurd (omega arith)
icm_sleep_us_lem (suc fuel) us h = elim (Bool-cases (ltb 1000 us)) [
  | inl long ↦ rw long (ground (arith, icm_sleep_us_lem fuel (us - 1000)))
  | inr short ↦ rw short (ground arith)
]
