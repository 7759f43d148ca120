-- ===== src/Vision/Bounds.antt =====
-- The representation invariant of `DevVision`: no write outside the payload array.
use nuedc_control_car_freert.Prelude.{
  ℕ, ◌≤◌, ◌<◌, ◌≡◌, refl, List, [], ◌∷◌, arith, length, length-set,
}
use nuedc_control_car_freert.Vision.{
  Vision, ParseState, ps_data, ps_type, sync1, max_payload, init, reset_parser, step, on_rx_byte,
  has_fresh_target, feed,
}

-- `index` may exceed a newly announced length until the type byte resets it.
pub record IsValid (v : Vision) : Type 0 where
  pub room : length v.payload ≡ max_payload
  pub len_in : v.len ≤ max_payload
  pub index_in : v.index ≤ max_payload
  pub collecting : v.state ≡ ps_data → v.index < v.len
  pub sized : v.state ≡ ps_type → 0 < v.len

pub init-IsValid : IsValid init
unfolding init
init-IsValid = ground arith

pub reset_parser-IsValid : (v : Vision) → IsValid v → IsValid (reset_parser v)
unfolding reset_parser
reset_parser-IsValid v h = ground arith

pub has_fresh_target-IsValid : (v : Vision) → IsValid v → IsValid (has_fresh_target v).0
unfolding has_fresh_target
has_fresh_target-IsValid v h = ground arith

step-IsValid :
    (s : ParseState) (v : Vision) (byte now_ms : ℕ)
    → v.state ≡ s
    → IsValid v
    → IsValid (step s v byte now_ms).0
unfolding step
step-IsValid sync1 v byte now_ms e h = ground arith
step-IsValid ps_data v byte now_ms e h = ground (arith, length-set v.payload v.index byte)
step-IsValid _ v byte now_ms e h = ground arith

-- After any byte the payload array still has its 32 bytes, the length and the index are at most 32,
-- and in the data state the index, where the next byte is written, is below the length.
pub on_rx_byte-IsValid :
    (v : Vision) (byte now_ms : ℕ) → IsValid v → IsValid (on_rx_byte v byte now_ms).0
unfolding on_rx_byte
on_rx_byte-IsValid v byte now_ms h = step-IsValid v.state v byte now_ms refl h

pub feed-IsValid :
    (now_ms : ℕ) (v : Vision) (bs : List ℕ) → IsValid v → IsValid (feed now_ms v bs).0
unfolding feed
feed-IsValid now_ms v [] h = h
feed-IsValid now_ms v (b ∷ bs) h =
    feed-IsValid now_ms (on_rx_byte v b now_ms).0 bs (on_rx_byte-IsValid v b now_ms h)
