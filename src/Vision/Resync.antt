-- ===== src/Vision/Resync.antt =====
-- Recovery of the parser from an interrupted frame, and when it reports.
use nuedc_control_car_freert.Prelude.{
  ℕ, zero, suc, ◌+◌, ◌-◌, ◌≤◌, ◌≡◌, refl, ◌↔◌, ◌⊎◌, true, false, [], arith, replicate,
}
use nuedc_control_car_freert.Vision.{
  Vision, ParseState, sync1, sync2, ps_len, ps_type, ps_data, ps_crc, ps_cr, ps_lf, clear_event,
  step, on_rx_byte, feed,
}
use nuedc_control_car_freert.Vision.Bounds.{IsValid, on_rx_byte-IsValid}

-- how many zero bytes bring the parser back to the search for a frame
abbrev distance : ParseState → Vision → ℕ
distance sync1 v = 0
distance sync2 v = 1
distance ps_len v = 1
distance ps_type v = v.len + 3
distance ps_data v = v.len - v.index + 2
distance ps_crc v = 2
distance ps_cr v = 1
distance ps_lf v = 1

step_zero :
    (s : ParseState) (v : Vision) (now_ms : ℕ)
    → v.state ≡ s
    → IsValid v
    → (distance (step s v 0 now_ms).0.state (step s v 0 now_ms).0 ≤ distance s v - 1)
      × ((step s v 0 now_ms).1 ≡ false)
      × ((step s v 0 now_ms).2 ≡ clear_event)
unfolding step
step_zero sync1 v now_ms e h = ground arith
step_zero _ v now_ms e h = ground arith

sync1_of_distance : (s : ParseState) (v : Vision) → distance s v ≡ 0 → s ≡ sync1
sync1_of_distance sync1 v h = refl
sync1_of_distance _ v h = absurd (omega arith)

resync_within :
    (now_ms : ℕ) (v : Vision) (k : ℕ)
    → IsValid v
    → distance v.state v ≤ k
    → ((feed now_ms v (replicate k 0)).0.state ≡ sync1) × ((feed now_ms v (replicate k 0)).1 ≡ [])
unfolding feed on_rx_byte
resync_within now_ms v zero h near = (sync1_of_distance v.state v (omega arith), refl)
resync_within now_ms v (suc k) h near =
    let less = step_zero v.state v now_ms refl h in
    rw less.1 (
      resync_within now_ms (on_rx_byte v 0 now_ms).0 k (on_rx_byte-IsValid v 0 now_ms h)
        (omega (arith, less.0)))

distance-le : (s : ParseState) (v : Vision) → IsValid v → distance s v ≤ 35
distance-le sync1 v h = omega arith
distance-le _ v h = omega arith

-- However a frame was cut off, 35 zero bytes, or more, bring the parser back to the search for a
-- frame, and none of them makes it report an event.
pub resync :
    (now_ms : ℕ) (v : Vision) (k : ℕ)
    → IsValid v
    → 35 ≤ k
    → ((feed now_ms v (replicate k 0)).0.state ≡ sync1) × ((feed now_ms v (replicate k 0)).1 ≡ [])
resync now_ms v k h long = resync_within now_ms v k h (omega (arith, distance-le v.state v h))

step_reports :
    (s : ParseState) (v : Vision) (byte now_ms : ℕ)
    → v.state ≡ s
    → ((step s v byte now_ms).1 ≡ true) ↔ (
        (s ≡ ps_lf)
        × (byte ≡ 0x0A)
        × (((v.frame_type ≡ 1) × (7 ≤ v.len)) ⊎ ((v.frame_type ≡ 2) × (1 ≤ v.len))))
unfolding step
step_reports sync1 v byte now_ms e = ground arith
step_reports _ v byte now_ms e = ground arith

-- A call returns 1 exactly when the byte is the line feed that ends a frame whose checksum and
-- carriage return have passed, and the frame is a target of at least 7 bytes or a command.
on_rx_byte_reports :
    (v : Vision) (byte now_ms : ℕ)
    → ((on_rx_byte v byte now_ms).1 ≡ true) ↔ (
        (v.state ≡ ps_lf)
        × (byte ≡ 0x0A)
        × (((v.frame_type ≡ 1) × (7 ≤ v.len)) ⊎ ((v.frame_type ≡ 2) × (1 ≤ v.len))))
unfolding on_rx_byte
on_rx_byte_reports v byte now_ms = step_reports v.state v byte now_ms refl
