-- ===== src/System/Health.antt =====
-- system/health_monitor.c: a heartbeat and a deadline for each of four tasks.
use nuedc_control_car_freert.Prelude.{
  ℕ, ◌+◌, ◌*◌, ◌^◌, ◌≤◌, ◌<◌, ◌≡◌, ◌≢◌, refl, ap, sym, Bool, true, false, ◌||◌, not, List, [], ◌∷◌,
  arith, ltb, leb, lt→ltb, ◌==◌, set, get_or, length, get_or-set_self, get_or-set_ne, replicate,
  if◌then◌else◌, bit_or, Bool-cases, inl, inr,
}
use nuedc_control_car_freert.Prelude.Words.{sub32, u32}

-- HealthTaskId_t; HEALTH_TASK_COUNT is 4
abbrev pub task_imu : ℕ
task_imu = 0

abbrev pub task_fast_io : ℕ
task_fast_io = 1

abbrev pub task_control : ℕ
task_control = 2

abbrev pub task_telemetry : ℕ
task_telemetry = 3

abbrev pub task_count : ℕ
task_count = 4

abbrev pub startup_grace_ms : ℕ
startup_grace_ms = 2000

-- `s_deadline_ms`
abbrev pub deadlines : List ℕ
deadlines = 100 ∷ 50 ∷ 100 ∷ 500 ∷ []

-- `s_last_beat_ms` and `s_started_ms`
pub record HealthState : Type 0 where
  pub last_beat_ms : List ℕ
  pub started_ms : ℕ

unfoldable pub init : ℕ → HealthState
init now = record { last_beat_ms = replicate task_count now; started_ms = now }

unfoldable pub beat : HealthState → ℕ → ℕ → HealthState
beat h task now =
    if ltb task task_count then record h { last_beat_ms = set h.last_beat_ms task now } else h

-- the loop of `System_Health_Check` from index `i` on
abbrev pub stale_from : ℕ → ℕ → List ℕ → List ℕ → ℕ → ℕ
stale_from now i [] _ mask = mask
stale_from now i (d ∷ ds) [] mask = mask
stale_from now i (d ∷ ds) (b ∷ bs) mask =
    stale_from now (i + 1) ds bs (if ltb d (sub32 now b) then bit_or mask (u32 (2 ^ i)) else mask)

-- what `System_Health_Check` stores through `stale_mask`
unfoldable pub stale_mask : HealthState → ℕ → ℕ
stale_mask h now =
    if leb startup_grace_ms (sub32 now h.started_ms)
    then stale_from now 0 deadlines h.last_beat_ms 0
    else 0

unfoldable pub check : HealthState → ℕ → Bool × ℕ
unfolding stale_mask
check h now = (stale_mask h now == 0, stale_mask h now)

-- the deadline and the staleness of one task, past the grace period
abbrev pub overdue : HealthState → ℕ → ℕ → Bool
overdue h now task = ltb (get_or deadlines task 0) (sub32 now (get_or h.last_beat_ms task 0))

abbrev pub is_graced : HealthState → ℕ → Bool
is_graced h now = ltb (sub32 now h.started_ms) startup_grace_ms

abbrev bit : Bool → ℕ
bit b = if b then 1 else 0

abbrev pub mask_of : Bool → Bool → Bool → Bool → ℕ
mask_of s0 s1 s2 s3 = bit s0 + bit s1 * 2 + bit s2 * 4 + bit s3 * 8

or_steps :
    (s0 s1 s2 s3 : Bool)
    → (let m0 : ℕ = if s0 then bit_or 0 (u32 (2 ^ 0)) else 0 in
        let m1 : ℕ = if s1 then bit_or m0 (u32 (2 ^ (0 + 1))) else m0 in
        let m2 : ℕ = if s2 then bit_or m1 (u32 (2 ^ (0 + 1 + 1))) else m1 in
        if s3 then bit_or m2 (u32 (2 ^ (0 + 1 + 1 + 1))) else m2)
      ≡ mask_of s0 s1 s2 s3
or_steps true true true true = refl
or_steps true true true false = refl
or_steps true true false true = refl
or_steps true true false false = refl
or_steps true false true true = refl
or_steps true false true false = refl
or_steps true false false true = refl
or_steps true false false false = refl
or_steps false true true true = refl
or_steps false true true false = refl
or_steps false true false true = refl
or_steps false true false false = refl
or_steps false false true true = refl
or_steps false false true false = refl
or_steps false false false true = refl
or_steps false false false false = refl

stale_list :
    (now : ℕ) (bs : List ℕ)
    → length bs ≡ 4
    → stale_from now 0 deadlines bs 0
      ≡ mask_of
          (ltb 100 (sub32 now (get_or bs 0 0)))
          (ltb 50 (sub32 now (get_or bs 1 0)))
          (ltb 100 (sub32 now (get_or bs 2 0)))
          (ltb 500 (sub32 now (get_or bs 3 0)))
stale_list now [] e = absurd (omega arith)
stale_list now (b0 ∷ []) e = absurd (omega arith)
stale_list now (b0 ∷ b1 ∷ []) e = absurd (omega arith)
stale_list now (b0 ∷ b1 ∷ b2 ∷ []) e = absurd (omega arith)
stale_list now (b0 ∷ b1 ∷ b2 ∷ b3 ∷ []) e =
    or_steps (ltb 100 (sub32 now b0)) (ltb 50 (sub32 now b1)) (ltb 100 (sub32 now b2))
      (ltb 500 (sub32 now b3))
stale_list now (b0 ∷ b1 ∷ b2 ∷ b3 ∷ b4 ∷ bs) e = absurd (omega arith)

-- The mask is 0 in the first two seconds, and then has bit `i` set exactly when task `i` has not
-- beaten within its deadline.
stale_mask_lem :
    (h : HealthState) (now : ℕ)
    → length h.last_beat_ms ≡ 4
    → stale_mask h now ≡ (
        if is_graced h now
        then 0
        else mask_of
            (overdue h now task_imu)
            (overdue h now task_fast_io)
            (overdue h now task_control)
            (overdue h now task_telemetry))
unfolding stale_mask
stale_mask_lem h now e = rw (stale_list now h.last_beat_ms e) (ground arith)

mask_zero : (s0 s1 s2 s3 : Bool) → (mask_of s0 s1 s2 s3 == 0) ≡ not (s0 || s1 || s2 || s3)
mask_zero s0 s1 s2 s3 = ground arith

-- The check passes exactly in the first two seconds and when no task is overdue.
check_passes :
    (h : HealthState) (now : ℕ)
    → length h.last_beat_ms ≡ 4
    → (check h now).0 ≡ (
        is_graced h now
        || not (
            overdue h now task_imu
            || overdue h now task_fast_io
            || overdue h now task_control
            || overdue h now task_telemetry))
unfolding check
check_passes h now e = elim (Bool-cases (is_graced h now)) [
  | inl early ↦ rw (stale_mask_lem h now e) (rw early)
  | inr late ↦ rw (stale_mask_lem h now e) (
      rw late (
        mask_zero (overdue h now task_imu) (overdue h now task_fast_io) (overdue h now task_control)
          (overdue h now task_telemetry)))
]

-- A heartbeat of a task at `now` is the reference of its deadline from then on: `e` milliseconds
-- later, with the clock wrapping or not, the task is overdue exactly if `e` exceeds its deadline,
-- and the heartbeat changes nothing about any other task.
beat_restarts :
    (h : HealthState) (task other now e : ℕ)
    → length h.last_beat_ms ≡ 4
    → task < 4
    → now < 2 ^ 32
    → e < 2 ^ 32
    → (overdue (beat h task now) (u32 (now + e)) task ≡ ltb (get_or deadlines task 0) e)
      × (other ≢ task
          → overdue (beat h task now) (u32 (now + e)) other ≡ overdue h (u32 (now + e)) other)
unfolding beat
beat_restarts h task other now e sized known hn he = rw (lt→ltb task 4 known) (
  rw (get_or-set_self h.last_beat_ms task now 0 (omega arith))
      (ap (ltb (get_or deadlines task 0)) (omega arith)),
  λ ne.
      ap (λ b. ltb (get_or deadlines other 0) (sub32 (u32 (now + e)) b))
        (get_or-set_ne h.last_beat_ms now 0 (λ same. ne (sym same))),
)

-- A task number past the last one is ignored.
pub beat_unknown : (h : HealthState) (task now : ℕ) → 4 ≤ task → beat h task now ≡ h
unfolding beat
beat_unknown h task now far = ground arith
