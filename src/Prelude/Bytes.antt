-- ===== src/Prelude/Bytes.antt =====
-- Facts about bytes that are checked on every value.
use nuedc_control_car_freert.Prelude.{
  ℕ, zero, suc, ◌+◌, ◌*◌, ◌<◌, ◌≡◌, refl, Bool, true, ◌&&◌, arith, ◌==◌, ==_iff, bit_or, ap, ◌∙◌,
}
use nuedc_control_car_freert.Prelude.Words.{u16}

-- the test passes at every number under the bound
unfoldable pub every : (ℕ → Bool) → ℕ → Bool
every test zero = true
every test (suc n) = every test n && test n

pub every_at : (test : ℕ → Bool) {i n : ℕ} → i < n → every test n ≡ true → test i ≡ true
unfolding every
every_at test {i = i} {n = zero} below passed = absurd (omega arith)
every_at test {i = i} {n = suc n} below passed = ground (arith, every_at test {i = i} {n = n})

joined : ℕ → ℕ → Bool
joined h l = bit_or l (h * 256) == l + h * 256

joined_pairs : every (λ h. every (joined h) 256) 256 ≡ true
unfolding every joined
joined_pairs = refl

-- `l | (h << 8)` puts two bytes side by side.
bit_or-bytes : (l h : ℕ) → l < 256 → h < 256 → bit_or l (h * 256) ≡ l + h * 256
unfolding joined
bit_or-bytes l h pl ph =
    (==_iff _ _).0
      (every_at (joined h) pl (every_at (λ high. every (joined high) 256) ph joined_pairs))

pub bit_or-u16-bytes : (l h : ℕ) → l < 256 → h < 256 → bit_or l (u16 (h * 256)) ≡ l + h * 256
bit_or-u16-bytes l h pl ph = ap (bit_or l) (omega arith) ∙ bit_or-bytes l h pl ph
