-- ===== src/Platform/I2c/Outcomes.antt =====
-- How the calls of the I2C driver end.
use nuedc_control_car_freert.Prelude.{
  ℕ, zero, suc, ◌≤◌, ◌<◌, ◌≡◌, refl, Bool, true, false, Bool-cases, ◌⊎◌, inl, inr, ◌||◌, not, List,
  [], ◌∷◌, arith, ltb, length, ◌==◌, if◌then◌else◌,
}
use nuedc_control_car_freert.Platform.I2c.{
  I2cLib, I2cBus, valid_bus, keeps_waiting, wait_limit, wait_rounds, wait_idle, prepare, write,
  read_timeout, read_bytes, read_prepared, read_reg8, start_register_read, tx_fifo_bytes,
}

module _ {V : Type 0} (lib : I2cLib V) where
  -- the last that was done is a reset of the transfer
  abbrev pub WasReset : V → Type 0
  WasReset v = (w : V) × (v ≡ lib.reset_transfer w)

  -- A call that fails leaves the controller as it was, or reset.
  abbrev pub IsSettled : V → V × Bool → Type 0
  IsSettled v o = (o.1 ≡ true) ⊎ ((o.1 ≡ false) × ((o.0 ≡ v) ⊎ WasReset o.0))

  abbrev Ends : V × Bool → Type 0
  Ends o = (o.1 ≡ true) ⊎ ((o.1 ≡ false) × WasReset o.0)

  wait_rounds-Ends : (n : ℕ) (v : V) → Ends (wait_rounds lib n v)
  unfolding wait_rounds
  wait_rounds-Ends zero v = inr (refl, ((lib.status v).0, refl))
  wait_rounds-Ends (suc n) v = elim (Bool-cases (lib.status v).1.error) [
    | inl error ↦ rw error (inr (refl, ((lib.status v).0, refl)))
    | inr fine ↦ elim (Bool-cases (keeps_waiting (lib.status v).1)) [
      | inl waits ↦ rw (fine, waits) (wait_rounds-Ends n (lib.status v).0)
      | inr done ↦ rw (fine, done) (inl refl)
    ]
  ]

  module _ (bus : I2cBus) where
    wait_idle-Ends : (v : V) → valid_bus bus ≡ true → Ends (wait_idle lib bus v)
    unfolding wait_idle
    wait_idle-Ends v valid = rw valid (wait_rounds-Ends (wait_limit bus) v)

    prepare-Ends : (v : V) (bytes : List ℕ) → valid_bus bus ≡ true → Ends (prepare lib bus v bytes)
    unfolding prepare
    prepare-Ends v bytes valid =
        let (filled, count) = lib.fill_tx (lib.reset_transfer v) bytes in
        elim (Bool-cases (count == length bytes)) [
          | inl full ↦ rw full (wait_idle-Ends filled valid)
          | inr short ↦ rw short (inr (refl, (filled, refl)))
        ]

    settled : (v : V) (o : V × Bool) → Ends o → IsSettled v o
    settled v o (inl done) = inl done
    settled v o (inr (failed, reset)) = inr (failed, inr reset)

    started-Ends : (p o : V × Bool) → Ends p → Ends o → Ends (if p.1 then o else (p.0, false))
    started-Ends p o (inl ready) h = rw ready h
    started-Ends p o (inr (failed, reset)) h = rw failed (inr (refl, reset))

    -- A write returns 0, or it fails and the controller is as it was or was reset last, whatever the
    -- controller answers.
    pub write-IsSettled :
        (v : V) (addr : ℕ) (bytes : List ℕ) → IsSettled v (write lib bus v addr bytes)
    unfolding write
    write-IsSettled v addr bytes =
        let len = length bytes in
        elim (Bool-cases (not (valid_bus bus) || (len == 0 || ltb (tx_fifo_bytes bus) len))) [
          | inl refused ↦ rw refused (inr (refl, inl refl))
          | inr accepted ↦
              let valid : valid_bus bus ≡ true = ground arith in
              rw accepted (
                settled v _ (
                  started-Ends (prepare lib bus v bytes) _ (prepare-Ends v bytes valid)
                    (wait_idle-Ends (lib.start_tx (prepare lib bus v bytes).0 addr len) valid)))
        ]

    -- how a read of `left` bytes ends: with all of them, or short of one and the transfer reset
    abbrev Reads : ℕ → V × List ℕ × Bool → Type 0
    Reads left o =
        ((o.2 ≡ true) × (length o.1 ≡ left)) ⊎ ((o.2 ≡ false) × (length o.1 < left) × WasReset o.0)

    cons-Reads :
        (left byte : ℕ) (o : V × List ℕ × Bool)
        → Reads left o
        → Reads (suc left) (o.0, byte ∷ o.1, o.2)
    cons-Reads left byte o (inl (done, all)) = inl (done, omega (arith, all))
    cons-Reads left byte o (inr (failed, few, reset)) = inr (failed, omega (arith, few), reset)

    -- One look at the status and at the receive FIFO, before what the loop does next.
    look_Reads :
        (left : ℕ) (v : V) (rest next : V × List ℕ × Bool) (byte : ℕ) (error empty : Bool)
        → Reads (suc left) rest
        → Reads left next
        → Reads (suc left) (
            if error
            then (lib.reset_transfer v, [], false)
            else if empty
            then rest
            else (next.0, byte ∷ next.1, next.2))
    look_Reads left v rest next byte true empty hr hn = inr (refl, omega arith, (v, refl))
    look_Reads left v rest next byte false true hr hn = hr
    look_Reads left v rest next byte false false hr hn = cons-Reads left byte next hn

    read_bytes-Reads : (left timeout : ℕ) (v : V) → Reads left (read_bytes lib bus left timeout v)
    unfolding read_bytes
    read_bytes-Reads zero timeout v = inl (refl, refl)
    read_bytes-Reads (suc left) zero v =
        let (w, status) = lib.status v in
        let (looked, empty) = lib.rx_empty w in
        let (taken, byte) = lib.receive looked in
        look_Reads left w _ _ byte status.error empty (inr (refl, omega arith, (looked, refl)))
          (read_bytes-Reads left (read_timeout bus left) taken)
    read_bytes-Reads (suc left) (suc timeout) v =
        let (w, status) = lib.status v in
        let (looked, empty) = lib.rx_empty w in
        let (taken, byte) = lib.receive looked in
        look_Reads left w _ _ byte status.error empty (read_bytes-Reads (suc left) timeout looked)
          (read_bytes-Reads left (read_timeout bus left) taken)

    -- how a register read ends
    abbrev pub IsReadOutcome : V → ℕ → V × List ℕ × Bool → Type 0
    IsReadOutcome v len o =
        ((o.2 ≡ true) × (length o.1 ≡ len))
        ⊎ ((o.2 ≡ false) × (length o.1 ≤ len) × ((o.0 ≡ v) ⊎ WasReset o.0))

    read_prepared-IsReadOutcome :
        (v ready : V) (addr len : ℕ)
        → valid_bus bus ≡ true
        → IsReadOutcome v len (read_prepared lib bus ready addr len)
    unfolding read_prepared
    read_prepared-IsReadOutcome v ready addr len valid =
        ended _ (wait_idle lib bus (read_bytes lib bus len (read_timeout bus len) started).0)
          (read_bytes-Reads len (read_timeout bus len) started) (wait_idle-Ends _ valid)
      where
        started : V
        started = start_register_read lib ready addr len

        ended :
            (read : V × List ℕ × Bool) (quiet : V × Bool)
            → Reads len read
            → Ends quiet
            → IsReadOutcome v len
                (if read.2 then (quiet.0, read.1, quiet.1) else (read.0, read.1, false))
        ended read quiet (inl (all, count)) (inl done) = rw all (inl (done, count))
        ended read quiet (inl (all, count)) (inr (failed, reset)) =
            rw all (inr (failed, omega (arith, count), inr reset))
        ended read quiet (inr (failed, few, reset)) q =
            rw failed (inr (refl, omega (arith, few), inr reset))

    -- A register read ends, whatever the controller answers: it returns 0 and has stored exactly `len`
    -- bytes, or it fails, has stored at most `len`, and the controller is as it was or was reset last.
    pub read_reg8_ends :
        (v : V) (addr reg len : ℕ) → IsReadOutcome v len (read_reg8 lib bus v addr reg len)
    unfolding read_reg8
    read_reg8_ends v addr reg len =
        elim (Bool-cases (not (valid_bus bus) || (len == 0 || ltb 4095 len))) [
          | inl refused ↦ rw refused (inr (refl, omega arith, inl refl))
          | inr accepted ↦
              let valid : valid_bus bus ≡ true = ground arith in
              rw accepted (
                prepared (prepare lib bus v (reg ∷ [])) _ (prepare-Ends v (reg ∷ []) valid)
                  (read_prepared-IsReadOutcome v _ addr len valid))
        ]
      where
        prepared :
            (p : V × Bool) (read : V × List ℕ × Bool)
            → Ends p
            → IsReadOutcome v len read
            → IsReadOutcome v len (if p.1 then read else (p.0, [], false))
        prepared p read (inl ready) h = rw ready h
        prepared p read (inr (failed, reset)) h = rw failed (inr (refl, omega arith, inr reset))
