-- ===== src/Display/Packets.antt =====
-- What the display driver puts on the bus: a list of packets, each a control byte and at most seven
-- bytes.
use nuedc_control_car_freert.Prelude.{
  ℕ, zero, suc, ◌≤◌, ◌<◌, ◌≡◌, refl, ap, ◌∙◌, List, [], ◌∷◌, ◌++◌, arith, length, take, drop,
  take-append-drop, length-take, length-drop,
}

-- the bytes cut in sevens, each piece after the control byte
abbrev pub cut : (fuel control : ℕ) → List ℕ → List (List ℕ)
cut zero control bytes = []
cut (suc fuel) control [] = []
cut (suc fuel) control (x ∷ bytes) = (control ∷ x ∷ take 6 bytes) ∷ cut fuel control (drop 6 bytes)

unfoldable pub packets : (control : ℕ) → List ℕ → List (List ℕ)
packets control bytes = cut (length bytes) control bytes

-- the bytes after the control bytes
abbrev pub payload : List (List ℕ) → List ℕ
payload [] = []
payload ([] ∷ ps) = payload ps
payload ((control ∷ bytes) ∷ ps) = bytes ++ payload ps

-- every packet is the control byte and one to seven bytes
abbrev pub AreCut : ℕ → List (List ℕ) → Type 0
AreCut control [] = Unit
AreCut control ([] ∷ ps) = ⊥
AreCut control ((c ∷ bytes) ∷ ps) =
    (c ≡ control) × (0 < length bytes) × (length bytes ≤ 7) × AreCut control ps

cut_lem :
    (fuel control : ℕ) (bytes : List ℕ)
    → length bytes ≤ fuel
    → (payload (cut fuel control bytes) ≡ bytes) × AreCut control (cut fuel control bytes)
cut_lem zero control [] h = (refl, tt)
cut_lem zero control (x ∷ bytes) h = absurd (omega arith)
cut_lem (suc fuel) control [] h = (refl, tt)
cut_lem (suc fuel) control (x ∷ bytes) h =
    let rest = cut_lem fuel control (drop 6 bytes) (omega (arith, h, length-drop 6 bytes)) in
    (
      ap (λ l. x ∷ l) (ap (λ l. take 6 bytes ++ l) rest.0 ∙ take-append-drop 6 bytes),
      (refl, omega arith, omega (arith, length-take 6 bytes), rest.1),
    )

pub packets_lem :
    (control : ℕ) (bytes : List ℕ)
    → (payload (packets control bytes) ≡ bytes) × AreCut control (packets control bytes)
unfolding packets
packets_lem control bytes = cut_lem (length bytes) control bytes (omega arith)
