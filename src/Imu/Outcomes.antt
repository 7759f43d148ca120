-- ===== src/Imu/Outcomes.antt =====
-- What `begin` and `update` of modules/imu/device/dev_icm45688.c answer, by what the chip answers.
use nuedc_control_car_freert.Prelude.{
  ℕ, ◌≡◌, ◌≢◌, refl, true, false, Bool-cases, ◌&&◌, ◌⊎◌, inl, inr, some, arith, ◌==◌,
}
use nuedc_control_car_freert.Float.{Float}
use nuedc_control_car_freert.Imu.State.{Device, clear_measurements}
use nuedc_control_car_freert.Imu.Driver.{
  Vendor, imu_ok, imu_error, expected_who_am_i, write_drive_config, read_who_am_i, begin_setup,
  begin_identity, begin, update,
}

module _ {F : Type 0} ⦃f : Float F⦄ {V : Type 0} (vendor : Vendor V) where
  -- ready exactly when the status is good, and then with the expected identity
  abbrev pub Agrees : V × Device F × ℕ → Type 0
  Agrees o =
      ((o.1.ready ≡ true) × (o.2 ≡ imu_ok) × (o.1.last_who_am_i ≡ expected_who_am_i))
      ⊎ ((o.1.ready ≡ false) × (o.2 ≢ imu_ok))

  begin_setup-Agrees :
      (v : V) (d : Device F)
      → d.ready ≡ false
      → d.last_who_am_i ≡ expected_who_am_i
      → Agrees (begin_setup vendor v d)
  unfolding begin_setup
  begin_setup-Agrees v d idle who = ground arith

  begin_identity-Agrees :
      (v : V) (d : Device F) → d.ready ≡ false → Agrees (begin_identity vendor v d)
  unfolding begin_identity read_who_am_i
  begin_identity-Agrees v d idle =
      let (next, status, who) = vendor.who_am_i v in
      let named : Device F = record d { last_who_am_i = who } in
      elim (Bool-cases (status == imu_ok && who == expected_who_am_i)) [
        | inl good ↦
            let is_ok : (status == imu_ok) ≡ true = ground arith in
            let is_named : who ≡ expected_who_am_i = ground arith in
            rw (good, is_ok) (begin_setup-Agrees next named idle is_named)
        | inr bad ↦ rw bad (ground arith)
      ]

  -- `begin` on a handle with a bus, whatever the chip answers, leaves the handle ready exactly when it
  -- returns INV_IMU_OK, and only with the identity that the chip must have; otherwise it returns an
  -- error and the handle is not ready, even if it was before.
  pub begin-Agrees : (v : V) (d : Device F) → d.bus_set ≡ true → Agrees (begin vendor v d)
  unfolding begin clear_measurements
  begin-Agrees v d bus =
      let (next, status) = vendor.setup v write_drive_config in
      let cleared = clear_measurements (record d { ready = false }) in
      let identified : Agrees (begin_identity vendor next cleared) =
        begin_identity-Agrees next cleared refl in
      ground (arith, identified)

  -- `update` on a handle that is not ready, or when the chip gives no sample, returns an error and
  -- leaves the handle as it is.
  update_fails :
      (fuel : ℕ) (v : V) (d : Device F)
      → (d.ready ≡ false) ⊎ ((vendor.register_data v).1 ≢ imu_ok)
      → (w : V) × (status : ℕ) × (update vendor fuel v d ≡ some (w, d, status)) × (status ≢ imu_ok)
  unfolding update
  update_fails fuel v d (inl idle) = (v, imu_error, rw idle refl, omega arith)
  update_fails fuel v d (inr failed) = elim (Bool-cases d.ready) [
    | inl is_ready ↦
        let (next, status, raw) = vendor.register_data v in
        let is_bad : (status == imu_ok) ≡ false = ground arith in
        (next, status, rw (is_ready, is_bad) refl, failed)
    | inr idle ↦ (v, imu_error, rw idle refl, omega arith)
  ]
