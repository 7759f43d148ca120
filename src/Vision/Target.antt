-- ===== src/Vision/Target.antt =====
-- A target frame carries its coordinates, class and area to the reader of `Dev_Vision_GetTarget`.
use mathlib.Core.Path.{subst}
use nuedc_control_car_freert.Prelude.{
  ◌++◌, Bool-cases, inl, inr, ℕ, ◌+◌, ◌*◌, ◌/◌, ◌%◌, ◌^◌, ◌≤◌, ◌<◌, ◌≡◌, refl, ◌∙◌, true, List, [],
  ◌∷◌, arith, length, get_or, bit_or, ==_refl, ap,
}
use nuedc_control_car_freert.Prelude.Int.{ℤ}
use nuedc_control_car_freert.Prelude.Words.{u16, signed16, to_word, IsI16, i16_of_IsI16}
use nuedc_control_car_freert.Prelude.Bytes.{bit_or-u16-bytes}
use nuedc_control_car_freert.Vision.{
  Vision, VisionEvent, on_rx_byte, VisionTarget, sync1, target_event, dispatch_frame, feed,
  get_target, has_fresh_target, decode_target, clear_event, byte_at, max_payload,
}
use nuedc_control_car_freert.Vision.Bounds.{IsValid, feed-IsValid}
use nuedc_control_car_freert.Vision.Frames.{
  frame_crc, frame_bytes, received, parse_frame, get_or-overwrite, overwrite,
}

-- the two bytes of an int16_t, low byte first
abbrev pub low_byte : ℤ → ℕ
low_byte z = to_word (2 ^ 16) z % 256

abbrev pub high_byte : ℤ → ℕ
high_byte z = to_word (2 ^ 16) z / 256

-- the payload that a camera sends for a target
abbrev pub target_payload : VisionTarget → List ℕ
target_payload t =
    low_byte t.center_x
    ∷ high_byte t.center_x
    ∷ low_byte t.center_y
    ∷ high_byte t.center_y
    ∷ t.class_id
    ∷ t.area % 256
    ∷ t.area / 256
    ∷ []

-- the values that the wire can carry
pub record IsWireTarget (t : VisionTarget) : Type 0 where
  pub x_in : IsI16 t.center_x
  pub y_in : IsI16 t.center_y
  pub class_in : t.class_id < 256
  pub area_in : t.area < 2 ^ 16

to_word-lt : (z : ℤ) → to_word (2 ^ 16) z < 2 ^ 16
to_word-lt z = ground arith

signed16-bytes : (z : ℤ) → IsI16 z → signed16 (bit_or (low_byte z) (u16 (high_byte z * 256))) ≡ z
signed16-bytes z h = rw e (i16_of_IsI16 z h)
  where
    e : bit_or (low_byte z) (u16 (high_byte z * 256)) ≡ to_word (2 ^ 16) z
    e = omega (
      arith,
      bit_or-u16-bytes (low_byte z) (high_byte z) (omega arith) (omega (arith, to_word-lt z)),
    )

area-bytes : (a : ℕ) → a < 2 ^ 16 → bit_or (a % 256) (u16 (a / 256 * 256)) ≡ a
area-bytes a h = omega (arith, bit_or-u16-bytes (a % 256) (a / 256) (omega arith) (omega arith))

-- the stored payload, read at an index of the frame
byte_at-received :
    (v : Vision) (type : ℕ) (bs : List ℕ) (i : ℕ)
    → IsValid v
    → length bs ≤ max_payload
    → i < length bs
    → byte_at (received v type bs) i ≡ get_or bs i 0
byte_at-received v type bs i h small inside =
    ap (λ k. get_or (overwrite v.payload 0 bs) k 0) (let e : i ≡ 0 + i = omega arith in e)
    ∙ get_or-overwrite v.payload bs 0 i 0 (omega arith) inside

decode_target-received :
    (v : Vision) (t : VisionTarget) (now_ms : ℕ)
    → IsValid v
    → IsWireTarget t
    → decode_target (received v 1 (target_payload t)) now_ms ≡ record t { ts_ms = now_ms }
decode_target-received v t now_ms h w =
    rw
      (
        at 0 (omega arith),
        at 1 (omega arith),
        at 2 (omega arith),
        at 3 (omega arith),
        at 4 (omega arith),
        at 5 (omega arith),
        at 6 (omega arith),
      )
      (rw (
        signed16-bytes t.center_x w.x_in,
        signed16-bytes t.center_y w.y_in,
        area-bytes t.area w.area_in,
      ))
  where
    at :
        (i : ℕ)
        → i < 7
        → byte_at (received v 1 (target_payload t)) i ≡ get_or (target_payload t) i 0
    at i inside = byte_at-received v 1 (target_payload t) i h (omega arith) inside

-- the parser after a good target frame
abbrev arrived_at : Vision → VisionTarget → ℕ → Vision
arrived_at v t now_ms = record (received v 1 (target_payload t)) {
  state = sync1;
  target = record t { ts_ms = now_ms };
  fresh_target = true;
}

feed-target_frame :
    (now_ms : ℕ) (v : Vision) (t : VisionTarget)
    → IsValid v
    → v.state ≡ sync1
    → IsWireTarget t
    → feed now_ms v (frame_bytes 1 (target_payload t) (frame_crc 1 (target_payload t))) ≡ (
      arrived_at v t now_ms,
      record clear_event {
        type = target_event;
        target = record t { ts_ms = now_ms };
        frame_type = 1;
      }
          ∷ [],
    )
unfolding dispatch_frame
feed-target_frame now_ms v t h e w =
    parse_frame now_ms v 1 (frame_crc 1 (target_payload t)) (target_payload t) e (omega arith)
      (omega arith)
    ∙ rw (==_refl (frame_crc 1 (target_payload t))) (rw (decode_target-received v t now_ms h w))

-- A valid parser that looks for a frame and is fed a target frame with its right checksum reports
-- one target event, raises the fresh flag, and gives the reader the target that was sent, stamped
-- with the time of arrival; it looks for the next frame.
pub target_round_trip :
    (now_ms : ℕ) (v : Vision) (t : VisionTarget)
    → IsValid v
    → v.state ≡ sync1
    → IsWireTarget t
    → let (w, events) =
        feed now_ms v (frame_bytes 1 (target_payload t) (frame_crc 1 (target_payload t))) in
      let arrived = record t { ts_ms = now_ms } in
      (get_target w ≡ arrived)
      × ((has_fresh_target w).1 ≡ true)
      × (w.state ≡ sync1)
      × (events ≡ record clear_event { type = target_event; target = arrived; frame_type = 1 } ∷ [])
unfolding get_target has_fresh_target
target_round_trip now_ms v t h e w =
    rw (feed-target_frame now_ms v t h e w) (refl, refl, refl, refl)

pub feed-append :
    (now_ms : ℕ) (v : Vision) (xs ys : List ℕ)
    → feed now_ms v (xs ++ ys) ≡ (
      (feed now_ms (feed now_ms v xs).0 ys).0,
      (feed now_ms v xs).1 ++ (feed now_ms (feed now_ms v xs).0 ys).1,
    )
unfolding feed
feed-append now_ms v [] ys = refl
feed-append now_ms v (x ∷ xs) ys = elim (Bool-cases (on_rx_byte v x now_ms).1) [
  | inl done ↦ rw (done, feed-append now_ms (on_rx_byte v x now_ms).0 xs ys)
  | inr quiet ↦ rw (quiet, feed-append now_ms (on_rx_byte v x now_ms).0 xs ys)
]

abbrev pub target_frame : VisionTarget → List ℕ
target_frame t = frame_bytes 1 (target_payload t) (frame_crc 1 (target_payload t))

abbrev pub target_events : ℕ → List VisionTarget → List VisionEvent
target_events now_ms [] = []
target_events now_ms (t ∷ ts) =
    record clear_event { type = target_event; target = record t { ts_ms = now_ms }; frame_type = 1 }
    ∷ target_events now_ms ts

abbrev pub AllWireTargets : List VisionTarget → Type 0
AllWireTargets [] = Unit {0}
AllWireTargets (t ∷ ts) = IsWireTarget t × AllWireTargets ts

abbrev pub target_frames : List VisionTarget → List ℕ
target_frames [] = []
target_frames (t ∷ ts) = target_frame t ++ target_frames ts

-- A valid parser that looks for a frame and is fed target frames one behind another reports the
-- targets that were sent, all of them and in order, each stamped with the time of arrival.
target_stream :
    (now_ms : ℕ) (v : Vision) (ts : List VisionTarget)
    → IsValid v
    → v.state ≡ sync1
    → AllWireTargets ts
    → (feed now_ms v (target_frames ts)).1 ≡ target_events now_ms ts
target_stream now_ms v [] h e w = unfold feed in refl
target_stream now_ms v (t ∷ ts) h e w =
    rw (feed-append now_ms v (target_frame t) (target_frames ts), first)
      (ap (λ es. head ∷ es)
        (target_stream now_ms (arrived_at v t now_ms) ts
          (subst (λ r. IsValid r.0) first (feed-IsValid now_ms v (target_frame t) h)) refl w.1))
  where
    head : VisionEvent
    head = record clear_event {
      type = target_event;
      target = record t { ts_ms = now_ms };
      frame_type = 1;
    }

    first : feed now_ms v (target_frame t) ≡ (arrived_at v t now_ms, head ∷ [])
    first = feed-target_frame now_ms v t h e w.0
