-- ===== src/Platform/I2c/Ready.antt =====
-- The I2C driver on a device that answers.
use native.Mathlib.Nat.{mul-le-mul_left}
use nuedc_control_car_freert.Prelude.{
  ℕ, zero, suc, ◌+◌, ◌-◌, ◌*◌, ◌^◌, ◌≤◌, ◌<◌, ◌≡◌, ◌≢◌, refl, ap, ◌∙◌, true, false, Bool-cases, inl,
  inr, ◌||◌, not, bit_or, List, [], ◌∷◌, arith, ltb, length, ◌==◌, ==_refl,
}
use nuedc_control_car_freert.Prelude.Words.{u32}
use nuedc_control_car_freert.Platform.I2c.{
  I2cLib, I2cBus, I2cRegister, valid_bus, wait_limit, keeps_waiting, wait_rounds, wait_idle,
  prepare, read_timeout, read_bytes, read_prepared, read_reg8, start_register_read,
}

-- What is known of a controller: how often its status is still to be read before it is idle, the bytes
-- of its transmit FIFO, the bytes that the device is going to send, and how many looks the next of them
-- is away.
pub record Wire (V : Type 0) : Type 0 where
  pub left : V → ℕ
  pub fifo : V → List ℕ
  pub coming : V → List ℕ
  pub lag : V → ℕ

-- A controller and a device that answers a read from a register with some bytes, without an error. The
-- controller is found running until its transfer is over and idle after, a byte that is on its way
-- arrives within the limit of the bus, and the transfer is over within the limit after the last byte.
pub record IsAnswering {V : Type 0} (lib : I2cLib V) (bus : I2cBus) (w : Wire V) (addr reg : ℕ)
    (bytes : List ℕ) : Type 0 where
  pub over :
      (v : V)
      → w.left v ≡ 0
      → (lib.status v).1 ≡ record { busy = false; idle = true; error = false; busy_bus = false }
  pub running : (v : V) → 0 < w.left v → (lib.status v).1.idle ≡ false
  pub no_error : (v : V) → (lib.status v).1.error ≡ false
  pub polled : (v : V) → w.left (lib.status v).0 ≤ w.left v - 1
  pub polled_fifo : (v : V) → w.fifo (lib.status v).0 ≡ w.fifo v
  pub reset :
      (v : V) → (w.left (lib.reset_transfer v) ≤ w.left v) × (w.fifo (lib.reset_transfer v) ≡ [])
  pub filled :
      (v : V) (packet : List ℕ)
      → w.fifo v ≡ []
      → length packet ≤ 8
      → ((lib.fill_tx v packet).1 ≡ length packet)
        × (w.fifo (lib.fill_tx v packet).0 ≡ packet)
        × (w.left (lib.fill_tx v packet).0 ≤ w.left v)
  -- the address and the direction in MSA, then the length and the start in MCTR
  pub started :
      (v : V)
      → w.left v ≡ 0
      → w.fifo v ≡ reg ∷ []
      → let f = lib.fields in
        let named =
          lib.update_reg v I2cRegister.msa
            (bit_or (u32 (addr * 2 ^ f.saddr_ofs)) f.direction_rx)
            f.msa_mask in
        let going =
          lib.update_reg named I2cRegister.mctr
            (bit_or
              (bit_or
                (bit_or (bit_or (u32 (length bytes * 2 ^ f.mblen_ofs)) f.burstrun) f.start)
                f.rd_on_txempty)
              f.stop)
            f.mctr_mask in
        (w.coming going ≡ bytes) × (w.lag going < wait_limit bus)
  -- one look for a byte: of the status, and then of the receive FIFO
  pub looked :
      (v : V)
      → let u = (lib.rx_empty (lib.status v).0).0 in
        (w.coming u ≡ w.coming v) × (w.lag u ≤ w.lag v - 1)
  pub arrived :
      (v : V) (b : ℕ) (bs : List ℕ)
      → w.coming v ≡ b ∷ bs
      → w.lag v ≡ 0
      → (lib.rx_empty (lib.status v).0).1 ≡ false
  pub received :
      (v : V) (b : ℕ) (bs : List ℕ)
      → w.coming v ≡ b ∷ bs
      → (lib.rx_empty (lib.status v).0).1 ≡ false
      → let (taken, byte) = lib.receive (lib.rx_empty (lib.status v).0).0 in
        (byte ≡ b)
        × (w.coming taken ≡ bs)
        × (w.lag taken < wait_limit bus)
        × (bs ≡ [] → w.left taken < wait_limit bus)

no_bytes : (b : ℕ) (bs : List ℕ) → b ∷ bs ≢ []
no_bytes b bs none = absurd (omega (arith, ap length none))

u32_enough :
    (limit left len : ℕ)
    → left ≤ len
    → limit * (len + 1) < 2 ^ 32
    → limit ≤ u32 (limit * (left + 1))
u32_enough limit left len h small =
    let more : left + 1 ≤ len + 1 = omega arith in
    let one : 1 ≤ left + 1 = omega arith in
    let below = mul-le-mul_left limit more in
    let above = mul-le-mul_left limit one in omega (arith, below, above, small)

module _ {V : Type 0} (lib : I2cLib V) (bus : I2cBus) (w : Wire V) (addr reg : ℕ) (answer : List ℕ)
    (ready : IsAnswering lib bus w addr reg answer) where
  wait_rounds_ready :
      (n : ℕ) (v : V)
      → w.left v < n
      → let o = wait_rounds lib n v in (o.1 ≡ true) × (w.left o.0 ≡ 0) × (w.fifo o.0 ≡ w.fifo v)
  unfolding wait_rounds
  wait_rounds_ready zero v h = absurd (omega arith)
  wait_rounds_ready (suc n) v h =
      let fewer = ready.polled v in
      elim (Bool-cases (w.left v == 0)) [
        | inl none_left ↦
            let is_over : w.left v ≡ 0 = ground arith in
            rw (ready.no_error v, ap keeps_waiting (ready.over v is_over))
              (refl, omega arith, ready.polled_fifo v)
        | inr some_left ↦
            let waits : keeps_waiting (lib.status v).1 ≡ true =
              rw (ready.running v (ground arith)) refl in
            let (ends, idle, same) = wait_rounds_ready n (lib.status v).0 (ground arith) in
            rw (ready.no_error v, waits) (ends, idle, same ∙ ready.polled_fifo v)
      ]

  wait_idle_ready :
      (v : V)
      → valid_bus bus ≡ true
      → w.left v < wait_limit bus
      → let o = wait_idle lib bus v in (o.1 ≡ true) × (w.left o.0 ≡ 0) × (w.fifo o.0 ≡ w.fifo v)
  unfolding wait_idle
  wait_idle_ready v valid h = rw valid (wait_rounds_ready (wait_limit bus) v h)

  prepare_ready :
      (v : V)
      → valid_bus bus ≡ true
      → w.left v < wait_limit bus
      → let o = prepare lib bus v (reg ∷ []) in
        (o.1 ≡ true) × (w.left o.0 ≡ 0) × (w.fifo o.0 ≡ reg ∷ [])
  unfolding prepare
  prepare_ready v valid h =
      let (fewer, empty) = ready.reset v in
      let (took, held, fewer') =
        ready.filled (lib.reset_transfer v) (reg ∷ []) empty (omega arith) in
      let (ends, idle, same) =
        wait_idle_ready (lib.fill_tx (lib.reset_transfer v) (reg ∷ [])).0 valid (omega arith) in
      rw (took, ==_refl (length (reg ∷ []))) (ends, idle, same ∙ held)

  -- the timeout while bytes are to come is longer than a byte is away
  timeout_enough :
      (left len : ℕ)
      → left ≤ len
      → wait_limit bus * (len + 1) < 2 ^ 32
      → wait_limit bus ≤ read_timeout bus left
  timeout_enough left len h small = u32_enough (wait_limit bus) left len h small

  read_bytes_ready :
      (left len timeout : ℕ) (v : V) (bytes : List ℕ)
      → left ≤ len
      → wait_limit bus * (len + 1) < 2 ^ 32
      → w.coming v ≡ bytes
      → length bytes ≡ left
      → w.lag v ≤ timeout
      → (bytes ≡ [] → w.left v < wait_limit bus)
      → let o = read_bytes lib bus left timeout v in
        (o.1 ≡ bytes) × (o.2 ≡ true) × (w.left o.0 < wait_limit bus)
  unfolding read_bytes
  read_bytes_ready zero len timeout v [] h small come count near end = (refl, refl, end refl)
  read_bytes_ready zero len timeout v (b ∷ bs) h small come count near end = absurd (omega arith)
  read_bytes_ready (suc left) len timeout v [] h small come count near end = absurd (omega arith)
  read_bytes_ready (suc left) len zero v (b ∷ bs) h small come count near end =
      let here = ready.arrived v b bs come (omega arith) in
      let (byte, come', near', end') = ready.received v b bs come here in
      let (rest, all, done) =
        read_bytes_ready left len (read_timeout bus left) _ bs (omega arith) small come'
          (omega arith) (omega (arith, near', timeout_enough left len (omega arith) small)) end' in
      rw (ready.no_error v, here, byte, rest) (refl, all, done)
  read_bytes_ready (suc left) len (suc timeout) v (b ∷ bs) h small come count near end =
      let u = (lib.rx_empty (lib.status v).0).0 in
      let (same, nearer) = ready.looked v in
      elim (Bool-cases (lib.rx_empty (lib.status v).0).1) [
        | inr here ↦
            let (byte, come', near', end') = ready.received v b bs come here in
            let (rest, all, done) =
              read_bytes_ready left len (read_timeout bus left) _ bs (omega arith) small come'
                (omega arith) (omega (arith, near', timeout_enough left len (omega arith) small))
                end' in
            rw (ready.no_error v, here, byte, rest) (refl, all, done)
        | inl empty ↦
            rw (ready.no_error v, empty)
              (read_bytes_ready (suc left) len timeout u (b ∷ bs) h small (same ∙ come) count
                (omega (arith, nearer, near)) (λ none. absurd (no_bytes b bs none)))
      ]

  -- On a controller and with a device that answers a read without errors, where each byte arrives and
  -- each transfer is over within the limit of the bus, a read of 1 to 4095 bytes returns 0 and stores
  -- the bytes that the device answers, in order, if the limit times one more than their number fits in
  -- 32 bits.
  pub read_reg8_succeeds :
      (v : V)
      → valid_bus bus ≡ true
      → w.left v < wait_limit bus
      → 0 < length answer
      → length answer ≤ 4095
      → wait_limit bus * (length answer + 1) < 2 ^ 32
      → let o = read_reg8 lib bus v addr reg (length answer) in (o.2 ≡ true) × (o.1 ≡ answer)
  unfolding read_reg8 read_prepared start_register_read
  read_reg8_succeeds v valid calm some_byte few small =
      let len = length answer in
      let accepted : (not (valid_bus bus) || (len == 0 || ltb 4095 len)) ≡ false = ground arith in
      let (prepared, idle, held) = prepare_ready v valid calm in
      let u = (prepare lib bus v (reg ∷ [])).0 in
      let going = start_register_read lib u addr len in
      let (come, near) = ready.started u idle held in
      let (bytes, all, done) =
        read_bytes_ready len len (read_timeout bus len) going answer (omega arith) small come refl
          (omega (arith, near, timeout_enough len len (omega arith) small))
          (λ none. absurd (omega (arith, ap length none, some_byte))) in
      let last = (read_bytes lib bus len (read_timeout bus len) going).0 in
      let (ends, quiet, same) = wait_idle_ready last valid done in
      rw (accepted, prepared, all) (ends, bytes)
