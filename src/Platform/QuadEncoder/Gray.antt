-- ===== src/Platform/QuadEncoder/Gray.antt =====
-- The decoder's table against the quadrature cycle: turning forward the two phases pass through
-- 00, 01, 11, 10, and each such step counts one pulse.
use nuedc_control_car_freert.Prelude.{
  ℕ, zero, suc, ◌+◌, ◌*◌, ◌%◌, ◌≤◌, ◌<◌, ◌≡◌, refl, ap, ◌∙◌, Bool, true, false, List, [], ◌∷◌,
  arith, if◌then◌else◌, get_or,
}
use nuedc_control_car_freert.Prelude.Int.{ℤ, pos, negsuc, ◌+ℤ◌, nat_abs}
use nuedc_control_car_freert.Platform.QuadEncoder.{decode_step, table}

-- where in the cycle a pair of phases stands
abbrev pub phase : ℕ → ℕ
phase s = get_or (0 ∷ 1 ∷ 3 ∷ 2 ∷ []) s 0

-- the pair of phases after `k` quarter steps of the cycle
abbrev pub gray : ℕ → ℕ
gray k = get_or (0 ∷ 1 ∷ 3 ∷ 2 ∷ []) (k % 4) 0

-- the pulses counted along a sequence of sampled states
abbrev pub counted : ℕ → List ℕ → ℤ
counted s [] = pos 0
counted s (t ∷ ts) = decode_step s t +ℤ counted t ts

-- A rotation: quarter steps forward (`true`) or back.
abbrev pub moved : ℕ → List Bool → ℕ
moved k [] = k
moved k (f ∷ fs) = moved (if f then k + 1 else k + 3) fs

abbrev pub sampled : ℕ → List Bool → List ℕ
sampled k [] = []
sampled k (f ∷ fs) = let k' = if f then k + 1 else k + 3 in gray k' ∷ sampled k' fs

abbrev pub net : List Bool → ℤ
net [] = pos 0
net (f ∷ fs) = (if f then pos 1 else negsuc 0) +ℤ net fs

decode_cases :
    (r : ℕ)
    → r < 4
    → (decode_step (gray r) (gray (r + 1)) ≡ pos 1)
      × (decode_step (gray r) (gray (r + 3)) ≡ negsuc 0)
unfolding decode_step
decode_cases zero h = (refl, refl)
decode_cases (suc zero) h = (refl, refl)
decode_cases (suc (suc zero)) h = (refl, refl)
decode_cases (suc (suc (suc zero))) h = (refl, refl)
decode_cases (suc (suc (suc (suc r)))) h = absurd (omega arith)

gray_mod : (a b : ℕ) → a % 4 ≡ b % 4 → gray a ≡ gray b
gray_mod a b e = ap (λ r. get_or (0 ∷ 1 ∷ 3 ∷ 2 ∷ []) r 0) e

decode-gray :
    (k : ℕ) (f : Bool)
    → decode_step (gray k) (gray (if f then k + 1 else k + 3)) ≡ (if f then pos 1 else negsuc 0)
decode-gray k true =
    ap (λ s. decode_step (gray k) s) (gray_mod (k + 1) (k % 4 + 1) (omega arith))
    ∙ ap (λ s. decode_step s (gray (k % 4 + 1))) (gray_mod k (k % 4) (omega arith))
    ∙ (decode_cases (k % 4) (omega arith)).0
decode-gray k false =
    ap (λ s. decode_step (gray k) s) (gray_mod (k + 3) (k % 4 + 3) (omega arith))
    ∙ ap (λ s. decode_step s (gray (k % 4 + 3))) (gray_mod k (k % 4) (omega arith))
    ∙ (decode_cases (k % 4) (omega arith)).1

-- If no quarter step is missed between two samples, then from any point of the cycle, the decoder
-- counts each step forward as one pulse and each step back as minus one.
pub counted-sampled : (k : ℕ) (fs : List Bool) → counted (gray k) (sampled k fs) ≡ net fs
counted-sampled k [] = refl
counted-sampled k (f ∷ fs) =
    ap (λ d. d +ℤ counted (gray k') (sampled k' fs)) (decode-gray k f)
    ∙ ap (λ n. (if f then pos 1 else negsuc 0) +ℤ n) (counted-sampled k' fs)
  where
    k' : ℕ
    k' = if f then k + 1 else k + 3

abbrev AllSmall : List ℤ → Type 0
AllSmall [] = Unit {0}
AllSmall (z ∷ zs) = (nat_abs z ≤ 1) × AllSmall zs

get_or-small : (zs : List ℤ) (i : ℕ) → AllSmall zs → nat_abs (get_or zs i (pos 0)) ≤ 1
get_or-small [] i h = omega arith
get_or-small (z ∷ zs) zero h = h.0
get_or-small (z ∷ zs) (suc i) h = get_or-small zs i h.1

-- A step is -1, 0 or 1, whatever the bytes that the table is looked up with.
pub decode_step_small : (last cur : ℕ) → nat_abs (decode_step last cur) ≤ 1
unfolding decode_step
decode_step_small last cur = get_or-small table (last % 4 * 4 + cur % 4) (omega arith)
