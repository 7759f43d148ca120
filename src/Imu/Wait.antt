-- ===== src/Imu/Wait.antt =====
-- modules/imu/imu_service.c: waiting for a sample. What lies outside is a parameter over its own state:
-- the vendor's driver, the pin of the data-ready interrupt, the tick count of the kernel, the
-- heartbeat, and the sleep for a number of ticks (one tick is a millisecond). Loops run on fuel.
use nuedc_control_car_freert.Prelude.{
  ℕ, zero, suc, ◌+◌, ◌-◌, ◌≤◌, ◌<◌, ◌≡◌, ◌≢◌, refl, sym, ap, ◌∙◌, ◌⊎◌, Bool, true, false, not,
  Bool-cases, inl, inr, Option, none, some, and_then, arith, leb, ◌==◌, if◌then◌else◌,
}
use nuedc_control_car_freert.Prelude.Words.{sub32}
use nuedc_control_car_freert.Float.{Float}
use nuedc_control_car_freert.Imu.State.{Device}
use nuedc_control_car_freert.Imu.Driver.{Vendor, imu_ok, imu_error_timeout, get_data_ready, update}

pub record Outside (V : Type 0) : Type 0 where
  pub vendor : Vendor V
  -- BSP_IMU_DataReady
  pub data_ready : V → V × Bool
  -- xTaskGetTickCount
  pub tick_count : V → V × ℕ
  -- System_Health_Beat of the IMU task, and vTaskDelay
  pub heartbeat : V → V
  pub sleep : V → ℕ → V

module _ {V : Type 0} (out : Outside V) where
  abbrev pub when_time_up : Bool → V → (V → Option (V × ℕ)) → Option (V × ℕ)
  when_time_up true told next = some (told, imu_error_timeout)
  when_time_up false told next = next (out.sleep (out.heartbeat told) 1)

  -- what follows a look without a sample: the time is up, or there is another look
  unfoldable pub look_again : ℕ → ℕ → V → (V → Option (V × ℕ)) → Option (V × ℕ)
  look_again start timeout_ticks v next =
      let (told, now) = out.tick_count v in
      when_time_up (leb timeout_ticks (sub32 now start)) told next

  -- what follows a look
  abbrev after_look : ℕ → ℕ → (V → Option (V × ℕ)) → V × Option ℕ → Option (V × ℕ)
  after_look start timeout_ticks again (looked, some status) = some (looked, status)
  after_look start timeout_ticks again (looked, none) = look_again start timeout_ticks looked again

  look_again_over :
      (start timeout_ticks : ℕ) (v : V) (next : V → Option (V × ℕ))
      → leb timeout_ticks (sub32 (out.tick_count v).1 start) ≡ true
      → look_again start timeout_ticks v next ≡ some ((out.tick_count v).0, imu_error_timeout)
  unfolding look_again
  look_again_over start timeout_ticks v next over = rw over refl

  look_again_early :
      (start timeout_ticks : ℕ) (v : V) (next : V → Option (V × ℕ))
      → leb timeout_ticks (sub32 (out.tick_count v).1 start) ≡ false
      → look_again start timeout_ticks v next
        ≡ next (out.sleep (out.heartbeat (out.tick_count v).0) 1)
  unfolding look_again
  look_again_early start timeout_ticks v next early = rw early refl

module _ {F : Type 0} ⦃f : Float F⦄ {V : Type 0} (out : Outside V) where
  -- one look for a sample: the status, where the wait ends with it
  unfoldable pub look : V → Device F → V × Option ℕ
  look v d =
      let (seen, pin) = out.data_ready v in
      let (asked, status, pending) = get_data_ready out.vendor seen d in
      if not pin
      then (seen, none)
      else if not (status == imu_ok)
      then (asked, some status)
      else (asked, if pending then some imu_ok else none)

  -- the loop of `wait_and_update_imu`: INV_IMU_OK with a sample to be read, or the error
  unfoldable pub wait_sample : ℕ → ℕ → ℕ → V → Device F → Option (V × ℕ)
  wait_sample zero start timeout_ticks v d = none
  wait_sample (suc fuel) start timeout_ticks v d =
      let (looked, found) = look v d in
      elim found [
        | some status ↦ some (looked, status)
        | none ↦
            look_again out start timeout_ticks looked
              (λ w. wait_sample fuel start timeout_ticks w d)
      ]

  -- `turns` is the fuel of the loops that wrap an angle.
  unfoldable pub wait_and_update_imu : ℕ → ℕ → ℕ → V → Device F → Option (V × Device F × ℕ)
  wait_and_update_imu turns fuel timeout_ms v d =
      let (told, start) = out.tick_count v in
      and_then (wait_sample fuel start timeout_ms told d) (λ (w, status). elim (status == imu_ok) [
        | true ↦ update out.vendor turns w d
        | false ↦ some (w, d, status)
      ])

  -- the time waited when the tick count is read after a look without a sample
  abbrev pub waited : ℕ → V → Device F → ℕ
  waited start v d = sub32 (out.tick_count (look v d).0).1 start

  -- the state at the next look
  abbrev pub next_look : V → Device F → V
  next_look v d = out.sleep (out.heartbeat (out.tick_count (look v d).0).0) 1

  -- A look finds something: the pin of the data-ready interrupt is set, and the chip answers the
  -- request for its state with an error or with a sample to be read.
  abbrev pub Found : Device F → V → V × ℕ → Type 0
  Found d w r =
      let (asked, status, pending) = get_data_ready out.vendor (out.data_ready w).0 d in
      ((out.data_ready w).1 ≡ true)
      × (r ≡ (asked, status))
      × ((status ≢ imu_ok) ⊎ ((status ≡ imu_ok) × (pending ≡ true)))

  -- A look finds nothing, and the time is up: the result is the error of the timeout.
  abbrev pub TimedOut : ℕ → ℕ → Device F → V → V × ℕ → Type 0
  TimedOut start timeout_ticks d w r =
      ((look w d).1 ≡ none)
      × (timeout_ticks ≤ waited start w d)
      × (r ≡ ((out.tick_count (look w d).0).0, imu_error_timeout))

  look_cases :
      (v : V) (d : Device F)
      → ((r : V × ℕ) × (look v d ≡ (r.0, some r.1)) × Found d v r) ⊎ ((look v d).1 ≡ none)
  unfolding look
  look_cases v d =
      let seen = (out.data_ready v).0 in
      let (asked, status, pending) = get_data_ready out.vendor seen d in
      elim (Bool-cases (out.data_ready v).1) [
        | inr low ↦ inr (rw low refl)
        | inl high ↦ elim (Bool-cases (status == imu_ok)) [
          | inr bad ↦ inl ((asked, status), rw (high, bad) refl, (high, refl, inl (ground arith)))
          | inl good ↦ elim (Bool-cases pending) [
            | inl sample ↦
                let ok : status ≡ imu_ok = ground arith in
                inl (
                  (asked, status),
                  rw (high, good, sample) (ap (λ n. (asked, some n)) (sym ok)),
                  (high, refl, inr (ok, sample)),
                )
            | inr none_yet ↦ inr (rw (high, good, none_yet) refl)
          ]
        ]
      ]

  -- how a wait ends: at a look that finds something, or that is the last
  abbrev pub IsWaitEnd : ℕ → ℕ → Device F → V × ℕ → Type 0
  IsWaitEnd start timeout_ticks d r = (w : V) × (Found d w r ⊎ TimedOut start timeout_ticks d w r)

  wait_after_look :
      (fuel start timeout_ticks : ℕ) (v : V) (d : Device F) (o : V × Option ℕ)
      → look v d ≡ o
      → wait_sample (suc fuel) start timeout_ticks v d
        ≡ after_look out start timeout_ticks (λ w. wait_sample fuel start timeout_ticks w d) o
  unfolding wait_sample
  wait_after_look fuel start timeout_ticks v d o same =
      by_look (look v d)
      ∙ ap (after_look out start timeout_ticks (λ w. wait_sample fuel start timeout_ticks w d)) same
    where
      by_look :
          (p : V × Option ℕ)
          → elim p.1 as (λ found. Option (V × ℕ)) [
            | some status ↦ some (p.0, status)
            | none ↦
                look_again out start timeout_ticks p.0
                  (λ w. wait_sample fuel start timeout_ticks w d)
          ]
            ≡ after_look out start timeout_ticks (λ w. wait_sample fuel start timeout_ticks w d) p
      by_look (looked, some status) = refl
      by_look (looked, none) = refl

  wait_from :
      (n fuel start timeout_ticks : ℕ) (v : V) (d : Device F)
      → ((w : V)
          → waited start w d < timeout_ticks
          → waited start w d < waited start (next_look w d) d)
      → timeout_ticks ≤ waited start v d + n
      → n < fuel
      → (r : V × ℕ) × (wait_sample fuel start timeout_ticks v d ≡ some r)
        × IsWaitEnd start timeout_ticks d r
  wait_from n zero start timeout_ticks v d clock left h = absurd (omega arith)
  wait_from n (suc fuel) start timeout_ticks v d clock left h =
      let looked = (look v d).0 in
      let again : V → Option (V × ℕ) = λ w. wait_sample fuel start timeout_ticks w d in
      elim (look_cases v d) [
        | inl (r, found, is_found) ↦ (
          r,
          wait_after_look fuel start timeout_ticks v d (r.0, some r.1) found,
          (v, inl is_found),
        )
        | inr nothing ↦
            let silent =
              wait_after_look fuel start timeout_ticks v d (looked, none)
                (ap (λ found. (looked, found)) nothing) in
            elim (Bool-cases (leb timeout_ticks (waited start v d))) [
              | inl over ↦ (
                ((out.tick_count looked).0, imu_error_timeout),
                silent ∙ look_again_over out start timeout_ticks looked again over,
                (v, inr (nothing, ground arith, refl)),
              )
              | inr early ↦
                  let later = clock v (ground arith) in
                  let (r, ends, how) =
                    wait_from (n - 1) fuel start timeout_ticks (next_look v d) d clock
                      (ground arith) (ground arith) in
                  (
                    r,
                    silent ∙ look_again_early out start timeout_ticks looked again early ∙ ends,
                    how,
                  )
            ]
      ]

  -- A wait for a sample ends: if the tick count has moved on by the next look whenever the time is not
  -- up, then fuel for one look more than the time in ticks is enough. It ends at a look at which the
  -- pin of the data-ready interrupt is set and the chip answers, with INV_IMU_OK only if it has a sample
  -- to be read and else with the error of the chip, or at a look that finds nothing with the time up,
  -- with the error of the timeout.
  pub wait_ends :
      (fuel start timeout_ticks : ℕ) (v : V) (d : Device F)
      → ((w : V)
          → waited start w d < timeout_ticks
          → waited start w d < waited start (next_look w d) d)
      → timeout_ticks < fuel
      → (r : V × ℕ) × (wait_sample fuel start timeout_ticks v d ≡ some r)
        × IsWaitEnd start timeout_ticks d r
  wait_ends fuel start timeout_ticks v d clock h =
      wait_from timeout_ticks fuel start timeout_ticks v d clock (omega arith) h
