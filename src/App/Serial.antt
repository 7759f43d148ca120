-- ===== src/App/Serial.antt =====
-- From the bytes that the operator sends to the state of the car: the interrupt of the debug port, the
-- command parser and the state machine.
mod Tests
use nuedc_control_car_freert.Prelude.{
  ℕ, zero, suc, ◌≡◌, ◌≤◌, refl, ap, sym, ◌∙◌, Bool, true, false, ◌&&◌, ◌||◌, List, [], ◌∷◌, map,
  length, arith, if◌then◌else◌, ◌==◌,
}
use nuedc_control_car_freert.Platform.Uart.{UartPort, UartLib}
use nuedc_control_car_freert.Platform.Uart.Queue.{IsReceiving}
use nuedc_control_car_freert.Telemetry.{Requests}
use nuedc_control_car_freert.Telemetry.Commands.{Telemetry, Reply, on_rx_byte}
use nuedc_control_car_freert.Telemetry.Commands.Lines.{feed}
use nuedc_control_car_freert.Telemetry.DebugUart.Traffic.{irqs, irqs-feed}
use nuedc_control_car_freert.App.{AppState, World, Inputs, idle, run, state_tick}
use nuedc_control_car_freert.App.Requested.{mode, decide, state_tick_refines}
use nuedc_control_car_freert.Float.{Float}

-- the two shortcuts of the operator, 's' and 'x'
pub data Key : Type 0 where
  start_key stop_key : Key

abbrev pub key_code : Key → ℕ
key_code start_key = 115
key_code stop_key = 120

abbrev pub any_start : List Key → Bool
any_start [] = false
any_start (start_key ∷ keys) = true
any_start (stop_key ∷ keys) = any_start keys

abbrev pub any_stop : List Key → Bool
any_stop [] = false
any_stop (start_key ∷ keys) = any_stop keys
any_stop (stop_key ∷ keys) = true

-- the requests after the keys
abbrev pressed : Requests → List Key → Requests
pressed r [] = r
pressed r (start_key ∷ keys) = pressed (record r { start = true }) keys
pressed r (stop_key ∷ keys) = pressed (record r { stop = true }) keys

feed_keys :
    (keys : List Key) (t : Telemetry)
    → (feed t (map key_code keys)).0.requests ≡ pressed t.requests keys
unfolding on_rx_byte
feed_keys [] t = refl
feed_keys (start_key ∷ keys) t =
    feed_keys keys (record t { requests = record t.requests { start = true } })
feed_keys (stop_key ∷ keys) t =
    feed_keys keys (record t { requests = record t.requests { stop = true } })

pressed_lem :
    (keys : List Key) (r : Requests)
    → ((pressed r keys).start ≡ r.start || any_start keys)
      × ((pressed r keys).stop ≡ r.stop || any_stop keys)
      × ((pressed r keys).duty_pending ≡ r.duty_pending)
pressed_lem [] r = ground arith
pressed_lem (start_key ∷ keys) r = ground (arith, pressed_lem keys (record r { start = true }))
pressed_lem (stop_key ∷ keys) r = ground (arith, pressed_lem keys (record r { stop = true }))

module _ {F : Type 0} ⦃f : Float F⦄ where
  -- With nothing asked before, the keys that arrive by the interrupt before a control round decide its
  -- state by which of them there are, not by their order: RUN if there is a start and the IMU is
  -- ready, else IDLE if there is a stop, and else the state stays. So a stop after a start, within
  -- the same round, does not keep the car from running.
  pub keys_decide :
      {V : Type 0} (lib : UartLib V) (port : UartPort)
      → (port.inst == 0) ≡ false
      → (incoming : V → List ℕ) → IsReceiving lib incoming
      → (n : ℕ) (v : V) (keys : List Key) (t : Telemetry) (i : Inputs) (now : ℕ) (w : World F)
      → incoming v ≡ map key_code keys
      → length (map key_code keys) ≤ n
      → t.requests.start ≡ false
      → t.requests.stop ≡ false
      → t.requests.duty_pending ≡ false
      → let heard = (irqs lib port n v (t, [])).1 in
        (state_tick i now (record w { requests = heard.requests })).0.ctx.state ≡ (
          if any_start keys && w.ctx.imu_ready
          then run
          else if any_stop keys
          then idle
          else w.ctx.state)
  keys_decide lib port bound incoming receiving n v keys t i now w e h no_start no_stop no_duty =
      let heard = (irqs lib port n v (t, [])).1 in
      let told : heard.requests ≡ pressed t.requests keys =
        ap (λ u. u.requests)
          (irqs-feed lib port bound incoming receiving n v (map key_code keys) (t, []) e h).1
        ∙ feed_keys keys t in
      let (start, stop, duty) = pressed_lem keys t.requests in
      ap (λ m. m.state) (state_tick_refines i now (record w { requests = heard.requests }))
      ∙ settle w.ctx.imu_ready w.ctx.state (ap (λ r. r.duty_pending) told ∙ duty ∙ no_duty)
          (ap (λ r. r.start) told ∙ start ∙ ap (λ b. b || any_start keys) no_start)
          (ap (λ r. r.stop) told ∙ stop ∙ ap (λ b. b || any_stop keys) no_stop)
    where
      settle :
          {duty start start' stop stop' : Bool} (ready : Bool) (state : AppState)
          → duty ≡ false
          → start ≡ start'
          → stop ≡ stop'
          → (if duty then idle else if start && ready then run else if stop then idle else state)
            ≡ (if start' && ready then run else if stop' then idle else state)
      settle ready state hd hs hp = rw (hd, hs, hp) refl
