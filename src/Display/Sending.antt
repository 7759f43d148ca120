-- ===== src/Display/Sending.antt =====
-- What a call of the display driver sends, with all its errors: the packets that the display was sent
-- are observed through functions of the controller.
use mathlib.Core.List.{append-nil, append_assoc}
use nuedc_control_car_freert.Prelude.{
  ℕ, zero, suc, ◌≡◌, refl, sym, ap, ◌∙◌, Bool, false, Bool-cases, ◌⊎◌, inl, inr, ◌||◌, not, List,
  [], ◌∷◌, ◌++◌, length, ◌==◌, ==_iff, if◌then◌else◌,
}
use nuedc_control_car_freert.Platform.I2c.{I2cLib, I2cStatus}
use nuedc_control_car_freert.Display.{
  Display, reset_controller_transfer, wait_while, wait_until_idle, send_packet, write_packet,
}

-- DriverLib as its documentation describes it: a start sends what is in the FIFO. `fifo` is what is
-- in it, and `sent` the packets that the device at the address was sent.
pub record IsTraced {V : Type 0} (lib : I2cLib V) (address : ℕ) (fifo : V → List ℕ)
    (sent : V → List (List ℕ)) : Type 0 where
  pub look : (v : V) → sent (lib.status v).0 ≡ sent v
  pub reset : (v : V) → sent (lib.reset_transfer v) ≡ sent v
  pub disable : (v : V) → sent (lib.disable v) ≡ sent v
  pub enable : (v : V) → sent (lib.enable v) ≡ sent v
  pub flush : (v : V) → (fifo (lib.flush_tx v) ≡ []) × (sent (lib.flush_tx v) ≡ sent v)
  pub fill : (v : V) (bytes : List ℕ) → sent (lib.fill_tx v bytes).0 ≡ sent v
  pub filled :
      (v : V) (bytes : List ℕ)
      → fifo v ≡ []
      → (lib.fill_tx v bytes).1 ≡ length bytes
      → fifo (lib.fill_tx v bytes).0 ≡ bytes
  pub start :
      (v : V) (n : ℕ)
      → n ≡ length (fifo v)
      → sent (lib.start_tx v address n) ≡ sent v ++ (fifo v ∷ [])

module _ {V : Type 0} (lib : I2cLib V) (d : Display) (fifo : V → List ℕ) (sent : V → List (List ℕ))
    (traced : IsTraced lib d.address fifo sent) where
  -- A call that was to send the packets sent the first of them, and all if it succeeded.
  abbrev pub Sends : V → V × Bool → List (List ℕ) → Type 0
  Sends v o packets =
      (done : List (List ℕ)) × (rest : List (List ℕ)) × (done ++ rest ≡ packets)
      × (sent o.0 ≡ sent v ++ done)
      × ((o.1 ≡ false) ⊎ (rest ≡ []))

  pub nothing-Sends : (v w : V) (ok : Bool) → sent w ≡ sent v → Sends v (w, ok) []
  nothing-Sends v w ok same = ([], [], refl, same ∙ sym (append-nil _), inr refl)

  pub failed-Sends :
      (v w : V) (packets : List (List ℕ)) → sent w ≡ sent v → Sends v (w, false) packets
  failed-Sends v w packets same = ([], packets, refl, same ∙ sym (append-nil _), inl refl)

  -- one call, and the next if it succeeds
  pub both-Sends :
      (v : V) (p o : V × Bool) (first next : List (List ℕ))
      → Sends v p first
      → Sends p.0 o next
      → Sends v (if p.1 then o else (p.0, false)) (first ++ next)
  both-Sends v p o first next (done, rest, whole, told, inl failed) h = rw failed (
    done,
    rest ++ next,
    sym (append_assoc done rest next) ∙ ap (λ l. l ++ next) whole,
    told,
    inl refl,
  )
  both-Sends v p o first next (done, rest, whole, told, inr all)
        (done', rest', whole', told', end) =
      let every : done ≡ first = sym (append-nil done) ∙ ap (λ l. done ++ l) (sym all) ∙ whole in
      elim (Bool-cases p.1) [
        | inr failed ↦ rw failed (done, next, ap (λ l. l ++ next) every, told, inl refl)
        | inl went ↦ rw went (
          done ++ done',
          rest',
          append_assoc done done' rest' ∙ ap (λ l. done ++ l) whole' ∙ ap (λ l. l ++ next) every,
          told' ∙ ap (λ l. l ++ done') told ∙ append_assoc (sent v) done done',
          end,
        )
      ]

  -- The packets count from where as many were sent.
  pub moved-Sends :
      (v w : V) (o : V × Bool) (packets : List (List ℕ))
      → sent w ≡ sent v
      → Sends w o packets
      → Sends v o packets
  moved-Sends v w o packets same (done, rest, whole, told, end) =
      (done, rest, whole, told ∙ ap (λ l. l ++ done) same, end)

  wait_while-sent :
      (test : I2cStatus → Bool) (n : ℕ) (v : V) → sent (wait_while lib test n v).0 ≡ sent v
  unfolding wait_while
  wait_while-sent test zero v = refl
  wait_while-sent test (suc n) v = elim (Bool-cases (test (lib.status v).1)) [
    | inl waits ↦ rw waits (wait_while-sent test n (lib.status v).0 ∙ traced.look v)
    | inr over ↦ rw over (traced.look v)
  ]

  wait_until_idle-sent : (v : V) → sent (wait_until_idle lib v).0 ≡ sent v
  unfolding wait_until_idle
  wait_until_idle-sent v =
      let free = wait_while lib (λ s. s.busy) 200000 v in
      let idle = wait_while lib (λ s. not s.idle) 200000 free.0 in
      let told = wait_while-sent (λ s. s.busy) 200000 v in
      let told' = wait_while-sent (λ s. not s.idle) 200000 free.0 ∙ told in
      elim (Bool-cases free.1) [
        | inr late ↦ rw late told
        | inl ended ↦ elim (Bool-cases idle.1) [
          | inr late ↦ rw (ended, late) told'
          | inl ended' ↦ rw (ended, ended') (traced.look idle.0 ∙ told')
        ]
      ]

  pub reset_controller-sent : (v : V) → sent (reset_controller_transfer lib v) ≡ sent v
  unfolding reset_controller_transfer
  reset_controller-sent v = traced.enable _ ∙ traced.reset _ ∙ traced.disable v

  send_packet-Sends : (v : V) (packet : List ℕ) → Sends v (send_packet lib d v packet) (packet ∷ [])
  unfolding send_packet
  send_packet-Sends v packet =
      let flushed = lib.flush_tx v in
      let (filled, count) = lib.fill_tx flushed packet in
      let last = wait_until_idle lib (lib.start_tx filled d.address (length packet)) in
      let told : sent filled ≡ sent v = traced.fill flushed packet ∙ (traced.flush v).1 in
      elim (Bool-cases (count == length packet)) [
        | inr short ↦ rw short (failed-Sends v filled (packet ∷ []) told)
        | inl full ↦
            let held : fifo filled ≡ packet =
              traced.filled flushed packet (traced.flush v).0 ((==_iff _ _).0 full) in
            let started : sent last.0 ≡ sent v ++ (packet ∷ []) =
              wait_until_idle-sent _
              ∙ traced.start filled (length packet) (ap length (sym held))
              ∙ ap (λ l. l ++ (fifo filled ∷ [])) told
              ∙ ap (λ l. sent v ++ (l ∷ [])) held in
            elim (Bool-cases last.1) [
              | inl over ↦ rw (full, over) (packet ∷ [], [], refl, started, inr refl)
              | inr late ↦
                  rw (full, late)
                    (packet ∷ [], [], refl, reset_controller-sent last.0 ∙ started, inr refl)
            ]
      ]

  pub write_packet-Sends :
      (v : V) (packet : List ℕ) → Sends v (write_packet lib d v packet) (packet ∷ [])
  unfolding write_packet
  write_packet-Sends v packet =
      let ready = wait_until_idle lib v in
      let told = wait_until_idle-sent v in
      elim (Bool-cases (d.i2c == 0 || length packet == 0)) [
        | inl refused ↦ rw refused (failed-Sends v v (packet ∷ []) refl)
        | inr accepted ↦ elim (Bool-cases ready.1) [
          | inl idle ↦
              rw (accepted, idle)
                (moved-Sends v ready.0 _ (packet ∷ []) told (send_packet-Sends ready.0 packet))
          | inr late ↦
              rw (accepted, late)
                (failed-Sends v _ (packet ∷ []) (reset_controller-sent ready.0 ∙ told))
        ]
      ]
