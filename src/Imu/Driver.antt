-- ===== src/Imu/Driver.antt =====
-- modules/imu/device/dev_icm45688.c: the functions that call the vendor's driver. An `int` is its bit
-- pattern of 32 bits, which `status |= ...` joins. The driver is a parameter: what each of its calls
-- does to its own state and to the chip behind it, and what it answers.
use nuedc_control_car_freert.Prelude.{
  ℕ, ◌-◌, ◌^◌, Bool, true, false, ◌&&◌, not, List, [], ◌∷◌, Option, some, and_then, bit_or, ◌==◌,
  if◌then◌else◌,
}
use nuedc_control_car_freert.Float.{Float}
use nuedc_control_car_freert.Imu.State.{Device, clear_measurements}
use nuedc_control_car_freert.Imu.Device.{Sample, update_with}

-- INV_IMU_OK, INV_IMU_ERROR, INV_IMU_ERROR_TIMEOUT and INV_IMU_ERROR_BAD_ARG: 0, -1, -4 and -11
abbrev pub imu_ok : ℕ
imu_ok = 0

abbrev pub imu_error : ℕ
imu_error = 2 ^ 32 - 1

abbrev pub imu_error_timeout : ℕ
imu_error_timeout = 2 ^ 32 - 4

abbrev pub imu_error_bad_arg : ℕ
imu_error_bad_arg = 2 ^ 32 - 11

-- the calls that set the chip up, with the setting that `Begin` gives
pub data Setup : Type 0 where
  write_drive_config soft_reset accel_fsr_16g accel_200_hz gyro_fsr_1000dps gyro_200_hz : Setup
  accel_bandwidth_div_4 gyro_bandwidth_div_4 accel_low_noise gyro_low_noise : Setup
  enable_data_ready_interrupt clear_int1_config1 configure_int1_pin : Setup

pub record Vendor (V : Type 0) : Type 0 where
  -- inv_imu_get_who_am_i: the status and the byte
  pub who_am_i : V → V × ℕ × ℕ
  pub setup : V → Setup → V × ℕ
  -- inv_imu_get_int_status: the status and the flag of a new sample
  pub int_status : V → V × ℕ × Bool
  -- inv_imu_get_register_data: the status and the sample
  pub register_data : V → V × ℕ × Sample

-- INV_IMU_WHOAMI
abbrev pub expected_who_am_i : ℕ
expected_who_am_i = 233

-- the calls of `Begin` between the soft reset and the test of the status
abbrev pub setups : List Setup
setups =
    soft_reset ∷ accel_fsr_16g ∷ accel_200_hz ∷ gyro_fsr_1000dps ∷ gyro_200_hz
    ∷ accel_bandwidth_div_4 ∷ gyro_bandwidth_div_4 ∷ accel_low_noise ∷ gyro_low_noise
    ∷ enable_data_ready_interrupt ∷ clear_int1_config1 ∷ configure_int1_pin ∷ []

module _ {V : Type 0} (vendor : Vendor V) where
  -- `status |= ...` for each call, whatever the status is
  abbrev pub set_up : List Setup → V → ℕ → V × ℕ
  set_up [] v status = (v, status)
  set_up (call ∷ calls) v status =
      let (next, answer) = vendor.setup v call in set_up calls next (bit_or status answer)

module _ {F : Type 0} ⦃f : Float F⦄ {V : Type 0} (vendor : Vendor V) where
  -- The result is the driver, the handle, the status and the byte.
  unfoldable pub read_who_am_i : V → Device F → V × Device F × ℕ × ℕ
  read_who_am_i v d =
      let (next, status, who) = vendor.who_am_i v in
      (next, if status == imu_ok then record d { last_who_am_i = who } else d, status, who)

  -- `Begin` after the test of the identity
  unfoldable pub begin_setup : V → Device F → V × Device F × ℕ
  begin_setup v d =
      let (ready_v, status) = set_up vendor setups v imu_ok in
      let (last_v, answer, pending) = vendor.int_status ready_v in
      let joined = bit_or status answer in
      if not (status == imu_ok)
      then (ready_v, d, status)
      else if not (joined == imu_ok)
      then (last_v, d, joined)
      else (last_v, record d { ready = true }, imu_ok)

  unfoldable pub begin_identity : V → Device F → V × Device F × ℕ
  begin_identity v d =
      let (next, read, status, who) = read_who_am_i v d in
      if status == imu_ok && who == expected_who_am_i
      then begin_setup next read
      else (next, read, imu_error)

  unfoldable pub begin : V → Device F → V × Device F × ℕ
  begin v d =
      let cleared = clear_measurements (record d { ready = false }) in
      let (next, status) = vendor.setup v write_drive_config in
      if not d.bus_set
      then (v, d, imu_error_bad_arg)
      else if not (status == imu_ok)
      then (next, cleared, status)
      else begin_identity next cleared

  -- The result is the driver, the status and whether there is a new sample.
  unfoldable pub get_data_ready : V → Device F → V × ℕ × Bool
  get_data_ready v d =
      let (next, status, pending) = vendor.int_status v in
      if not d.ready then (v, imu_error, false) else (next, status, status == imu_ok && pending)

  unfoldable pub update : ℕ → V → Device F → Option (V × Device F × ℕ)
  update fuel v d =
      let (next, status, raw) = vendor.register_data v in
      if not d.ready
      then some (v, d, imu_error)
      else if not (status == imu_ok)
      then some (next, d, status)
      else and_then (update_with fuel d raw) (λ after. some (next, after, imu_ok))
