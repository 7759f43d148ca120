-- ===== src/Display/Waits.antt =====
-- The packets of the display driver, on a controller whose transfers come to an end.
use nuedc_control_car_freert.Prelude.{
  ℕ, zero, suc, ◌-◌, ◌≤◌, ◌<◌, ◌≡◌, refl, ap, Bool, true, false, Bool-cases, inl, inr, not, List,
  [], ◌∷◌, arith, length, length-take, length-drop, take, drop, ◌==◌, ==_refl,
}
use nuedc_control_car_freert.Platform.I2c.{I2cLib}
use nuedc_control_car_freert.Display.{
  Display, control_command, control_data, wait_while, wait_until_idle, send_packet, write_packet,
  write_chunks, write_command_list, write_data_list,
}

-- A controller whose transfers come to an end without an error. `left` is how many times the status is
-- still to be read before the transfer that is running is over: it is found running until then and
-- idle after, a transfer of at most eight bytes is over before its status was read 200000 times, and an
-- idle controller takes eight bytes into an empty FIFO.
pub record IsReady {V : Type 0} (lib : I2cLib V) (left : V → ℕ) : Type 0 where
  pub over :
      (v : V)
      → left v ≡ 0
      → (lib.status v).1 ≡ record { busy = false; idle = true; error = false; busy_bus = false }
  pub running : (v : V) → 0 < left v → (lib.status v).1.idle ≡ false
  pub polled : (v : V) → left (lib.status v).0 ≤ left v - 1
  pub started :
      (v : V) (address n : ℕ) → left v ≡ 0 → n ≤ 8 → left (lib.start_tx v address n) < 200000
  pub flushed : (v : V) → left v ≡ 0 → left (lib.flush_tx v) ≡ 0
  pub filled : (v : V) (bytes : List ℕ) → left v ≡ 0 → left (lib.fill_tx v bytes).0 ≡ 0
  pub takes :
      (v : V) (bytes : List ℕ)
      → left v ≡ 0
      → length bytes ≤ 8
      → (lib.fill_tx (lib.flush_tx v) bytes).1 ≡ length bytes
  pub disabled : (v : V) → left (lib.disable v) ≤ left v
  pub reset : (v : V) → left (lib.reset_transfer v) ≤ left v
  pub enabled : (v : V) → left (lib.enable v) ≤ left v

-- the call has succeeded, and what it leaves running is over in time
abbrev pub Done : {V : Type 0} → (V → ℕ) → V × Bool → Type 0
Done left o = (o.1 ≡ true) × (left o.0 < 200000)

module _ {V : Type 0} (lib : I2cLib V) (d : Display) (left : V → ℕ) (ready : IsReady lib left)
    (bound : (d.i2c == 0) ≡ false) where
  wait_busy_ready :
      (n : ℕ) (v : V)
      → left v < n
      → ((wait_while lib (λ s. s.busy) n v).1 ≡ true)
        × (left (wait_while lib (λ s. s.busy) n v).0 ≤ left v)
  unfolding wait_while
  wait_busy_ready zero v h = absurd (omega arith)
  wait_busy_ready (suc n) v h =
      let fewer = ready.polled v in
      elim (Bool-cases (lib.status v).1.busy) [
        | inr free ↦ rw free (refl, omega arith)
        | inl busy ↦ elim (Bool-cases (left v == 0)) [
          | inl none_left ↦
              absurd (ground (arith, busy, ap (λ s. s.busy) (ready.over v (ground arith))))
          | inr some_left ↦
              let some : 0 < left v = ground arith in
              let (ends, less) = wait_busy_ready n (lib.status v).0 (omega arith) in
              rw busy (ends, omega arith)
        ]
      ]

  wait_idle_ready :
      (n : ℕ) (v : V)
      → left v < n
      → ((wait_while lib (λ s. not s.idle) n v).1 ≡ true)
        × (left (wait_while lib (λ s. not s.idle) n v).0 ≡ 0)
  unfolding wait_while
  wait_idle_ready zero v h = absurd (omega arith)
  wait_idle_ready (suc n) v h =
      let fewer = ready.polled v in
      elim (Bool-cases (left v == 0)) [
        | inl none_left ↦
            let is_over : left v ≡ 0 = ground arith in
            rw (ap (λ s. s.idle) (ready.over v is_over)) (refl, omega arith)
        | inr some_left ↦
            let some : 0 < left v = ground arith in
            rw (ready.running v some) (wait_idle_ready n (lib.status v).0 (omega arith))
      ]

  wait_until_idle_ready :
      (v : V)
      → left v < 200000
      → ((wait_until_idle lib v).1 ≡ true) × (left (wait_until_idle lib v).0 ≡ 0)
  unfolding wait_until_idle
  wait_until_idle_ready v h =
      let free = (wait_while lib (λ s. s.busy) 200000 v).0 in
      let idle = (wait_while lib (λ s. not s.idle) 200000 free).0 in
      let (not_busy, less) = wait_busy_ready 200000 v h in
      let (is_idle, none_left) = wait_idle_ready 200000 free (omega arith) in
      let fewer = ready.polled idle in
      rw (not_busy, is_idle)
        (ap (λ s. not s.error) (ready.over idle none_left), omega (arith, none_left, fewer))

  write_packet_ready :
      (v : V) (packet : List ℕ)
      → left v < 200000
      → 0 < length packet
      → length packet ≤ 8
      → Done left (write_packet lib d v packet)
  unfolding write_packet send_packet
  write_packet_ready v packet h some_byte few =
      let (first, idle) = wait_until_idle_ready v h in
      let w = (wait_until_idle lib v).0 in
      let filled = (lib.fill_tx (lib.flush_tx w) packet).0 in
      let nonempty : (length packet == 0) ≡ false = ground arith in
      let still = ready.filled (lib.flush_tx w) packet (ready.flushed w idle) in
      let going = lib.start_tx filled d.address (length packet) in
      let (second, idle_again) =
        wait_until_idle_ready going (ready.started filled d.address (length packet) still few) in
      rw (bound, nonempty, first, ready.takes w packet idle few, ==_refl (length packet), second)
        (refl, omega (arith, idle_again))

  write_chunks_ready :
      (fuel control : ℕ) (v : V) (bytes : List ℕ)
      → left v < 200000
      → length bytes ≤ fuel
      → Done left (write_chunks lib d fuel control v bytes)
  unfolding write_chunks
  write_chunks_ready zero control v [] calm h = (refl, calm)
  write_chunks_ready zero control v (x ∷ bytes) calm h = absurd (omega arith)
  write_chunks_ready (suc fuel) control v [] calm h = (refl, calm)
  write_chunks_ready (suc fuel) control v (x ∷ bytes) calm h =
      let (sent, calm') =
        write_packet_ready v (control ∷ x ∷ take 6 bytes) calm (omega arith)
          (omega (arith, length-take 6 bytes)) in
      rw sent (
        write_chunks_ready fuel control _ (drop 6 bytes) calm'
          (omega (arith, h, length-drop 6 bytes)))

  pub write_commands_ready :
      (v : V) (bytes : List ℕ) → left v < 200000 → Done left (write_command_list lib d v bytes)
  unfolding write_command_list
  write_commands_ready v bytes calm =
      write_chunks_ready (length bytes) control_command v bytes calm (omega arith)

  pub write_data_ready :
      (v : V) (bytes : List ℕ) → left v < 200000 → Done left (write_data_list lib d v bytes)
  unfolding write_data_list
  write_data_ready v bytes calm =
      write_chunks_ready (length bytes) control_data v bytes calm (omega arith)
