-- ===== src/Platform/Pwm.antt =====
-- drv_pwm.c.
use nuedc_control_car_freert.Prelude.{
  ℕ, ◌*◌, ◌/◌, ◌-◌, ◌≤◌, ◌≡◌, ◌^◌, Bool, List, [], ◌∷◌, arith, ltb, ◌==◌, if◌then◌else◌,
}
use nuedc_control_car_freert.Prelude.Words.{u32, sub32}
use nuedc_control_car_freert.Platform.{Call, start_counter, set_compare}

-- DRV_PWM_DUTY_MAX
abbrev pub duty_max : ℕ
duty_max = 1000

-- `active_low` is the polarity DRV_PWM_ACTIVE_LOW.
pub record PwmChannel : Type 0 where
  pub timer : ℕ
  pub channel : ℕ
  pub period_ticks : ℕ
  pub active_low : Bool

unfoldable pub clamp_u32 : ℕ → ℕ → ℕ
clamp_u32 value max_value = if ltb max_value value then max_value else value

unfoldable pub start : PwmChannel → List Call
start p = if p.timer == 0 then [] else start_counter p.timer ∷ []

unfoldable pub set_compare_raw : PwmChannel → ℕ → List Call
set_compare_raw p compare = if p.timer == 0 then [] else set_compare p.timer compare p.channel ∷ []

-- the value computed by `Drv_Pwm_SetDutyPermille`
unfoldable pub compare_value : PwmChannel → ℕ → ℕ
unfolding clamp_u32
compare_value p duty =
    let compare = u32 (p.period_ticks * clamp_u32 duty duty_max) / duty_max in
    if p.active_low then sub32 p.period_ticks compare else compare

unfoldable pub set_duty_permille : PwmChannel → ℕ → List Call
unfolding set_compare_raw
set_duty_permille p duty = if p.timer == 0 then [] else set_compare_raw p (compare_value p duty)

-- the time, in timer ticks of a period, for which the output is active
abbrev pub on_ticks : PwmChannel → ℕ → ℕ
on_ticks p duty = let c = compare_value p duty in if p.active_low then p.period_ticks - c else c

clamp_u32-le : (value max_value : ℕ) → clamp_u32 value max_value ≤ max_value
unfolding clamp_u32
clamp_u32-le value max_value = ground arith

share-le : (ticks share : ℕ) → share ≤ 1000 → ticks * share ≤ ticks * 1000
share-le ticks share h = grind arith

-- For a period of at most 2 ^ 22 ticks nothing wraps: at either polarity the output is active for
-- `duty` thousandths of the period, rounded down, and for all of it from 1000 on; the compare value
-- does not exceed the period.
pub on_ticks_lem :
    (p : PwmChannel) (duty : ℕ)
    → p.period_ticks ≤ 2 ^ 22
    → (on_ticks p duty ≡ p.period_ticks * clamp_u32 duty 1000 / 1000)
      × (compare_value p duty ≤ p.period_ticks)
unfolding compare_value
on_ticks_lem p duty small =
    ground (arith, clamp_u32-le duty 1000, share-le p.period_ticks (clamp_u32 duty 1000))
