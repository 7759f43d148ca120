-- ===== src/Platform/Spi/Transfer.antt =====
-- What a transfer of the SPI driver puts on the bus.
use mathlib.Core.List.{append-nil, append_assoc}
use nuedc_control_car_freert.Prelude.{
  ℕ, zero, suc, ◌≡◌, refl, sym, ap, ◌∙◌, Bool, true, false, Bool-cases, ◌⊎◌, inl, inr, not, ◌&&◌,
  ◌==◌, List, [], ◌∷◌, ◌++◌, Option, none, some, AllSome, all_and_then, arith, length,
  if◌then◌else◌,
}
use nuedc_control_car_freert.Platform.Spi.{
  SpiBus, SpiLib, wait_limit, is_valid, wait_while, deselect, drain_rx, transfer8, transfer_all,
  exchange, selected_exchange,
}

-- DriverLib and the chip select as their documentation describes them: `cs` is the level of the pin,
-- which is what it was last set to, and `sent` are the bytes that were transmitted.
pub record IsWired {V : Type 0} (lib : SpiLib V) (cs : V → Bool) (sent : V → List ℕ) : Type 0 where
  pub set_level : (v : V) (level : Bool) → cs (lib.set_cs v level) ≡ level
  pub look_keeps : (v : V) → cs (lib.is_busy v).0 ≡ cs v
  pub busy : (v : V) → sent (lib.is_busy v).0 ≡ sent v
  pub full : (v : V) → sent (lib.tx_full v).0 ≡ sent v
  pub empty : (v : V) → sent (lib.rx_empty v).0 ≡ sent v
  pub receive : (v : V) → sent (lib.receive v).0 ≡ sent v
  pub select : (v : V) (level : Bool) → sent (lib.set_cs v level) ≡ sent v
  pub transmit : (v : V) (byte : ℕ) → sent (lib.transmit v byte) ≡ sent v ++ (byte ∷ [])

module _ {V : Type 0} (lib : SpiLib V) (bus : SpiBus) (cs : V → Bool) (sent : V → List ℕ)
    (wired : IsWired lib cs sent) where
  wait-sent :
      (test : V → V × Bool)
      → ((v : V) → sent (test v).0 ≡ sent v)
      → (n : ℕ) (v : V) → sent (wait_while test n v).0 ≡ sent v
  unfolding wait_while
  wait-sent test keeps zero v = keeps v
  wait-sent test keeps (suc n) v = elim (Bool-cases (test v).1) [
    | inl waits ↦ rw waits (wait-sent test keeps n (test v).0 ∙ keeps v)
    | inr over ↦ rw over (keeps v)
  ]

  -- a byte that was answered was sent
  transfer8-sent :
      (v : V) (tx : ℕ)
      → let o = transfer8 lib bus v tx in (o.1 ≡ none) ⊎ (sent o.0 ≡ sent v ++ (tx ∷ []))
  unfolding transfer8
  transfer8-sent v tx =
      let free = wait_while lib.tx_full (wait_limit bus) v in
      let came = wait_while lib.rx_empty (wait_limit bus) (lib.transmit free.0 tx) in
      let told : sent (lib.receive came.0).0 ≡ sent v ++ (tx ∷ []) =
        wired.receive came.0
        ∙ wait-sent lib.rx_empty wired.empty (wait_limit bus) (lib.transmit free.0 tx)
        ∙ wired.transmit free.0 tx
        ∙ ap (λ l. l ++ (tx ∷ [])) (wait-sent lib.tx_full wired.full (wait_limit bus) v) in
      elim (Bool-cases free.1) [
        | inr late ↦ rw late (inl refl)
        | inl ready ↦ elim (Bool-cases came.1) [
          | inr late ↦ rw (ready, late) (inl refl)
          | inl in_time ↦ rw (ready, in_time) (inr told)
        ]
      ]

  -- the bytes were all sent and answered, or not all were answered
  abbrev pub IsTransfer : V → List ℕ → V × List ℕ × Bool → Type 0
  IsTransfer v bytes o =
      (o.2 ≡ false) ⊎ ((sent o.0 ≡ sent v ++ bytes) × (length o.1 ≡ length bytes))

  -- one byte and its answer, then the rest
  answered-IsTransfer :
      (v w : V) (tx : ℕ) (more : List ℕ) (rx : Option ℕ) (last : V × List ℕ × Bool)
      → (rx ≡ none) ⊎ (sent w ≡ sent v ++ (tx ∷ []))
      → IsTransfer w more last
      → IsTransfer v
          (tx ∷ more)
          (elim rx [ none ↦ (w, [], false) | some byte ↦ (last.0, byte ∷ last.1, last.2) ])
  answered-IsTransfer v w tx more none last told rest = inl refl
  answered-IsTransfer v w tx more (some byte) last (inl nothing) rest = absurd (ground arith)
  answered-IsTransfer v w tx more (some byte) last (inr told) (inl failed) = inl failed
  answered-IsTransfer v w tx more (some byte) last (inr told) (inr (all, count)) =
      inr (all ∙ ap (λ l. l ++ more) told ∙ append_assoc (sent v) (tx ∷ []) more, ap suc count)

  transfer_all-IsTransfer :
      (bytes : List ℕ) (v : V) → IsTransfer v bytes (transfer_all lib bus v bytes)
  unfolding transfer_all
  transfer_all-IsTransfer [] v = inr (sym (append-nil (sent v)), refl)
  transfer_all-IsTransfer (tx ∷ more) v =
      let o = transfer8 lib bus v tx in
      answered-IsTransfer v o.0 tx more o.1 (transfer_all lib bus o.0 more) (transfer8-sent v tx)
        (transfer_all-IsTransfer more o.0)

  -- the exchange after its answer to the first byte: as many answers as other bytes
  abbrev pub IsExchange : V → ℕ → List ℕ → V × List ℕ × Bool → Type 0
  IsExchange v first bytes o =
      (o.2 ≡ false) ⊎ ((sent o.0 ≡ sent v ++ (first ∷ bytes)) × (length o.1 ≡ length bytes))

  exchange-IsExchange :
      (v : V) (first : ℕ) (bytes : List ℕ)
      → IsExchange v first bytes (exchange lib bus v first bytes)
  unfolding exchange
  exchange-IsExchange v first bytes =
      let named = transfer8 lib bus v first in
      let all = transfer_all lib bus named.0 bytes in
      let quiet = wait_while lib.is_busy (wait_limit bus) all.0 in
      ended named.1 all quiet (transfer8-sent v first) (transfer_all-IsTransfer bytes named.0)
        (wait-sent lib.is_busy wired.busy (wait_limit bus) all.0)
    where
      ended :
          (answer : Option ℕ) (all : V × List ℕ × Bool) (quiet : V × Bool)
          → let w = (transfer8 lib bus v first).0 in
            (answer ≡ none) ⊎ (sent w ≡ sent v ++ (first ∷ []))
            → IsTransfer w bytes all
            → sent quiet.0 ≡ sent all.0
            → IsExchange v first bytes (elim answer [
              | none ↦ (w, [], false)
              | some byte ↦ if all.2 then (quiet.0, all.1, quiet.1) else (all.0, all.1, false)
            ])
      ended none all quiet told rest same = inl refl
      ended (some byte) all quiet told (inl failed) same = rw failed (inl refl)
      ended (some byte) all quiet (inl nothing) (inr done) same = absurd (ground arith)
      ended (some byte) all quiet (inr told) (inr (whole, count)) same = elim (Bool-cases all.2) [
        | inr failed ↦ rw failed (inl refl)
        | inl done ↦ rw done (
            inr (
              same ∙ whole ∙ ap (λ l. l ++ bytes) told ∙ append_assoc (sent v) (first ∷ []) bytes,
              count,
            ))
      ]

  drain_rx-sent :
      (bytes : List ℕ) (fuel : ℕ) (v : V)
      → sent v ≡ bytes
      → AllSome (λ w. sent w ≡ bytes) (drain_rx lib bus fuel v)
  unfolding drain_rx
  drain_rx-sent bytes zero v same = tt
  drain_rx-sent bytes (suc fuel) v same =
      let (looked, empty) = lib.rx_empty v in
      elim (Bool-cases empty) [
        | inl drained ↦ rw drained (wired.empty v ∙ same)
        | inr more ↦ rw more (
            drain_rx-sent bytes fuel (lib.receive looked).0
              (wired.receive looked ∙ wired.empty v ∙ same))
      ]

  deselect_lem :
      (v : V) (len : ℕ)
      → is_valid bus len ≡ true
      → (cs (deselect lib bus v) ≡ true) × (sent (deselect lib bus v) ≡ sent v)
  unfolding deselect
  deselect_lem v len h =
      let wired_pin : (not (bus.cs_port == 0) && not (bus.cs_pin == 0)) ≡ true = ground arith in
      rw wired_pin (wired.set_level v true, wired.select v true)

  wait_keeps : (n : ℕ) (v : V) → cs (wait_while lib.is_busy n v).0 ≡ cs v
  unfolding wait_while
  wait_keeps zero v = wired.look_keeps v
  wait_keeps (suc n) v = elim (Bool-cases (lib.is_busy v).1) [
    | inl busy ↦ rw busy (wait_keeps n (lib.is_busy v).0 ∙ wired.look_keeps v)
    | inr quiet ↦ rw quiet (wired.look_keeps v)
  ]

  -- from where the selection was made, to after the chip is let go
  moved-IsExchange :
      (v w u : V) (first : ℕ) (bytes : List ℕ) (o : V × List ℕ × Bool)
      → sent w ≡ sent v
      → sent u ≡ sent o.0
      → IsExchange w first bytes o
      → IsExchange v first bytes (u, o.1, o.2)
  moved-IsExchange v w u first bytes o before after (inl failed) = inl failed
  moved-IsExchange v w u first bytes o before after (inr (told, count)) =
      inr (after ∙ told ∙ ap (λ l. l ++ (first ∷ bytes)) before, count)

  -- the chip is not selected, and the exchange was made if it is reported
  abbrev pub IsEnd : V → ℕ → List ℕ → V × List ℕ × Bool → Type 0
  IsEnd v first bytes o = (cs o.0 ≡ true) × IsExchange v first bytes o

  -- A chip that was not selected before a transfer is not selected after it, whatever is read or
  -- written, whatever the bus answers and whichever wait runs out. If the transfer returns 0, the
  -- bytes sent in it are the register byte and then the given ones, in order, and as many bytes were
  -- received as were given.
  pub transfer_ends :
      (fuel : ℕ) (v : V) (first : ℕ) (bytes : List ℕ)
      → cs v ≡ true
      → AllSome (IsEnd v first bytes) (selected_exchange lib bus fuel v first bytes)
  unfolding selected_exchange
  transfer_ends fuel v first bytes high =
      let (quiet, in_time) = wait_while lib.is_busy (wait_limit bus) v in
      elim (Bool-cases (is_valid bus (length bytes))) [
        | inr invalid ↦ rw invalid (high, inl refl)
        | inl valid ↦ elim (Bool-cases in_time) [
          | inr late ↦ rw (valid, late) (wait_keeps (wait_limit bus) v ∙ high, inl refl)
          | inl done ↦
              rw (valid, done)
                (all_and_then (λ w. sent w ≡ sent v) (IsEnd v first bytes)
                  (drain_rx lib bus fuel quiet) _
                  (drain_rx-sent (sent v) fuel quiet
                    (wait-sent lib.is_busy wired.busy (wait_limit bus) v))
                  (λ w same.
                    let selected = lib.set_cs w false in
                    let o = exchange lib bus selected first bytes in
                    let (let_go, kept) = deselect_lem o.0 (length bytes) valid in
                    (
                      let_go,
                      moved-IsExchange v selected (deselect lib bus o.0) first bytes o
                          (wired.select w false ∙ same) kept
                          (exchange-IsExchange selected first bytes),
                    )))
        ]
      ]
