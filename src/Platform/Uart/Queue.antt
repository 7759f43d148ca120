-- ===== src/Platform/Uart/Queue.antt =====
-- The bytes that go through the UART driver.
use nuedc_control_car_freert.Prelude.{
  ℕ, zero, suc, ◌≤◌, ◌<◌, ◌≡◌, refl, sym, ap, ◌∙◌, true, false, Bool-cases, inl, inr, List, [], ◌∷◌,
  ◌++◌, some, arith,
}
use mathlib.Core.List.{append-nil, append_assoc}
use nuedc_control_car_freert.Platform.Uart.{UartLib, wait_free, write_bytes}

-- The transmitter: `sent` are the bytes it was given, and `left` the looks after which it is free; a
-- byte keeps it busy for at most `most` looks.
pub record IsSending {V : Type 0} (lib : UartLib V) (sent : V → List ℕ) (left : V → ℕ) (most : ℕ)
    : Type 0 where
  pub look : (v : V) → sent (lib.is_busy v).0 ≡ sent v
  pub busy : (v : V) → (lib.is_busy v).1 ≡ true → left (lib.is_busy v).0 < left v
  pub transmit : (v : V) (byte : ℕ) → sent (lib.transmit v byte) ≡ sent v ++ (byte ∷ [])
  pub bound : (v : V) → left v ≤ most

-- The receiver: `incoming` are the bytes that it has not handed over yet.
pub record IsReceiving {V : Type 0} (lib : UartLib V) (incoming : V → List ℕ) : Type 0 where
  pub look : (v : V) → incoming (lib.pending_rx v).0 ≡ incoming v
  pub none_left : (v : V) → incoming v ≡ [] → (lib.pending_rx v).1 ≡ false
  pub some_left :
      (v : V) (byte : ℕ) (bytes : List ℕ) → incoming v ≡ byte ∷ bytes → (lib.pending_rx v).1 ≡ true
  pub receive :
      (v : V) (byte : ℕ) (bytes : List ℕ)
      → incoming v ≡ byte ∷ bytes
      → (incoming (lib.receive v).0 ≡ bytes) × ((lib.receive v).1 ≡ byte)

module _ {V : Type 0} (lib : UartLib V) (sent : V → List ℕ) (left : V → ℕ) (most : ℕ)
    (sending : IsSending lib sent left most) where
  wait_free_ends :
      (fuel : ℕ) (v : V)
      → left v < fuel
      → (w : V) × (wait_free lib fuel v ≡ some w) × (sent w ≡ sent v)
  unfolding wait_free
  wait_free_ends zero v h = absurd (omega arith)
  wait_free_ends (suc fuel) v h = elim (Bool-cases (lib.is_busy v).1) [
    | inl busy ↦
        let (w, ends, same) =
          wait_free_ends fuel (lib.is_busy v).0 (omega (arith, h, sending.busy v busy)) in
        (w, rw busy ends, same ∙ sending.look v)
    | inr free ↦ ((lib.is_busy v).0, rw free refl, sending.look v)
  ]

  pub write_bytes_ends :
      (fuel : ℕ) (v : V) (bytes : List ℕ)
      → most < fuel
      → (w : V) × (write_bytes lib fuel v bytes ≡ some w) × (sent w ≡ sent v ++ bytes)
  unfolding write_bytes
  write_bytes_ends fuel v [] h = (v, refl, sym (append-nil _))
  write_bytes_ends fuel v (byte ∷ bytes) h =
      let (free, ends, same) = wait_free_ends fuel v (omega (arith, h, sending.bound v)) in
      let (w, rest, told) = write_bytes_ends fuel (lib.transmit free byte) bytes h in
      (
        w,
        rw ends rest,
        told
            ∙ ap (λ l. l ++ bytes) (sending.transmit free byte ∙ ap (λ l. l ++ (byte ∷ [])) same)
            ∙ append_assoc (sent v) (byte ∷ []) bytes,
      )
