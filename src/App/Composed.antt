-- ===== src/App/Composed.antt =====
-- What the tasks do together: from a received command to the calibration of the IMU, and from a failing
-- IMU to a refused start.
use nuedc_control_car_freert.Prelude.{
  ℕ, ◌≡◌, ◌≢◌, refl, ap, ◌∙◌, false, Bool-cases, inl, inr, [], ◌∷◌, ◌++◌, some, length, arith, ◌==◌,
}
use nuedc_control_car_freert.Telemetry.{cal_none, cal_start, consume_imu_cal, consume_start}
use nuedc_control_car_freert.Telemetry.Commands.{Telemetry, codes, handle_command}
use nuedc_control_car_freert.Telemetry.Commands.Lines.{feed, feed_line}
use nuedc_control_car_freert.Telemetry.Emit.{Bindings, Memory, tick}
use nuedc_control_car_freert.System.Health.{HealthState}
use nuedc_control_car_freert.Imu.Driver.{imu_ok}
use nuedc_control_car_freert.Imu.Calibration.{
  Service, wait_still, service_yaw_requests, serve_cancel, serve_start, start_yaw_calibration,
  request_yaw_calibration, update_yaw_calibration, update_in,
}
use nuedc_control_car_freert.Imu.State.{Device}
use nuedc_control_car_freert.Imu.Wait.{Outside}
use nuedc_control_car_freert.Imu.Task.{
  Snapshot, ImuState, ready, publish_snapshot, next_sample, service_round,
}
use nuedc_control_car_freert.Imu.Task.Started.{after_sample, no_requests, service_round_lem}
use nuedc_control_car_freert.App.{World, Inputs, take_start}
use nuedc_control_car_freert.App.Tasks.{telemetry_round, fast_round, copy_imu_snapshot}
use nuedc_control_car_freert.Float.{Float}

-- the request after a line
asked_start :
    (t : Telemetry)
    → length t.cmd_buf ≡ 80
    → t.cmd_idx ≡ 0
    → (feed t (codes "$IMUCAL,START" ++ 10 ∷ [])).0.requests.imu_cal ≡ cal_start
unfolding handle_command
asked_start t size fresh =
    ap (λ o. o.0.requests.imu_cal)
      (feed_line t (codes "$IMUCAL,START") (ground arith) (ground arith) size fresh)

module _ {F : Type 0} ⦃f : Float F⦄ where
  tick_requests :
      (m : Memory F) (b : Bindings) (t : Telemetry) (now : ℕ)
      → (tick m b t now).0.requests ≡ t.requests
  unfolding tick
  tick_requests m b t now = ground arith

  served_waits :
      (s : Service F)
      → ((service_yaw_requests (request_yaw_calibration s)).yaw_cal.state ≡ wait_still)
        × ((service_yaw_requests (request_yaw_calibration s)).yaw_cal.settle_samples ≡ 0)
  unfolding service_yaw_requests serve_cancel serve_start start_yaw_calibration
      request_yaw_calibration
  served_waits s = ground arith

  -- one sample is not enough to go on from the wait for a car that stands
  still_waits :
      (s : Service F) (imu : Device F) (status : ℕ)
      → s.yaw_cal.state ≡ wait_still
      → s.yaw_cal.settle_samples ≡ 0
      → (after_sample s imu status).yaw_cal.state ≡ wait_still
  unfolding update_yaw_calibration update_in
  still_waits s imu status waits fresh = elim (Bool-cases (status == imu_ok)) [
    | inr failed ↦ rw failed waits
    | inl good ↦ elim (Bool-cases imu.stationary) [
      | inl rests ↦ rw (good, waits, rests, fresh) refl
      | inr moves ↦ rw (good, waits, moves) refl
    ]
  ]

  -- The line `$IMUCAL,START`, the next round of the telemetry task and the next round of the IMU task
  -- start the calibration of the yaw scale, whatever was going on before and whatever the sample of
  -- that round is, if the wait for it comes to an end: the telemetry task has handed on the request, the
  -- IMU task has taken it, the calibration waits for the car to stand still, and the snapshot says so.
  pub operator_calibrates :
      {V : Type 0} (m : Memory F) (b : Bindings) (now : ℕ) (t : Telemetry) (s : Service F)
      (health : HealthState) (out : Outside V) (turns fuel : ℕ) (v w : V) (old : Snapshot F)
      (imu : Device F) (status : ℕ)
      → length t.cmd_buf ≡ 80
      → t.cmd_idx ≡ 0
      → let heard = (feed t (codes "$IMUCAL,START" ++ 10 ∷ [])).0 in
        let (told, asked, beaten, reports) = telemetry_round m b now heard s health in
        next_sample out turns fuel v (service_yaw_requests asked).imu ≡ some (w, imu, status)
        → (told.requests.imu_cal ≡ cal_none)
          × (last : V) × (after : Service F) × (shown : Snapshot F) × (service_round out turns fuel
                v asked old
              ≡ some (last, after, shown))
          × (after.yaw_cal.state ≡ wait_still)
          × (after.start_requested ≡ false)
          × (shown.yaw_cal_state ≡ wait_still)
  unfolding telemetry_round consume_imu_cal publish_snapshot
  operator_calibrates m b now t s health out turns fuel v w old imu status size fresh =
      let heard = (feed t (codes "$IMUCAL,START" ++ 10 ∷ [])).0 in
      let wanted : (tick m b heard now).0.requests.imu_cal ≡ cal_start =
        ap (λ r. r.imu_cal) (tick_requests m b heard now) ∙ asked_start t size fresh in
      let asked = request_yaw_calibration s in
      let after = after_sample (service_yaw_requests asked) imu status in
      let (last, at) = out.tick_count w in
      let (waiting, fresh_count) = served_waits s in
      let waits = still_waits (service_yaw_requests asked) imu status waiting fresh_count in
      rw wanted (λ taken. (
        refl,
        out.heartbeat last,
        after,
        publish_snapshot at after old ready status,
        service_round_lem out turns fuel v w asked old imu status taken,
        waits,
        (no_requests asked imu status).0,
        waits,
      ))

  -- After a round in which the IMU has published an error, the copy of the fast task keeps a start
  -- request from putting the car into the run state: the request is dropped and the state stays.
  pub failing_imu_blocks_start :
      (i : Inputs) (published now later : ℕ) (w : World F) (s : Service F) (old : Snapshot F)
      (state : ImuState) (status : ℕ) (health : HealthState)
      → status ≢ imu_ok
      → let copied =
          (fast_round i now w (publish_snapshot published s old state status) health).0 in
        let started = (take_start i later copied).0 in
        (started.ctx.state ≡ w.ctx.state) × (started.requests.start ≡ false)
  unfolding fast_round copy_imu_snapshot publish_snapshot take_start consume_start
  failing_imu_blocks_start i published now later w s old state status health bad =
      let wrong : (status == imu_ok) ≡ false = ground arith in ground (arith, wrong)
