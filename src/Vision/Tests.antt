-- ===== src/Vision/Tests.antt =====
-- Runs of the parser, and the theorems at concrete inputs.
use nuedc_control_car_freert.Prelude.{◌≡◌, refl, true, [], ◌∷◌, arith, replicate}
use nuedc_control_car_freert.Prelude.Int.{pos, negsuc}
use nuedc_control_car_freert.Vision.{
  Vision, VisionTarget, sync1, ps_data, target_event, command_event, clear_event, init, on_rx_byte,
  feed, get_target, has_fresh_target,
}
use nuedc_control_car_freert.Vision.Bounds.{IsValid, init-IsValid}
use nuedc_control_car_freert.Vision.Frames.{frame_crc, frame_bytes}
use nuedc_control_car_freert.Vision.Target.{target_frame, target_round_trip}
use nuedc_control_car_freert.Vision.Resync.{resync}

abbrev ball : VisionTarget
ball = record { center_x = negsuc 19; center_y = pos 300; class_id = 3; area = 1025; ts_ms = 0 }

-- a parser in the middle of a payload of 20 bytes
abbrev halfway : Vision
halfway = record init { state = ps_data; len = 20; index = 4 }

halfway-IsValid : IsValid halfway
unfolding init
halfway-IsValid = omega arith

command_frame :
    (feed 50 init (frame_bytes 2 (77 ∷ []) (frame_crc 2 (77 ∷ [])))).1
    ≡ record clear_event { type = command_event; command = 77; frame_type = 2 } ∷ []
unfolding feed on_rx_byte init
command_frame = refl

bad_checksum_is_silent : (feed 50 init (frame_bytes 2 (77 ∷ []) 0)).1 ≡ []
unfolding feed on_rx_byte init
bad_checksum_is_silent = refl

target_round_trip_example :
    let (w, events) = feed 50 init (target_frame ball) in
    let arrived = record ball { ts_ms = 50 } in
    (get_target w ≡ arrived)
    × ((has_fresh_target w).1 ≡ true)
    × (w.state ≡ sync1)
    × (events ≡ record clear_event { type = target_event; target = arrived; frame_type = 1 } ∷ [])
unfolding init
target_round_trip_example = target_round_trip 50 init ball init-IsValid refl (omega arith)

resync_example :
    ((feed 5 halfway (replicate 40 0)).0.state ≡ sync1) × ((feed 5 halfway (replicate 40 0)).1 ≡ [])
resync_example = resync 5 halfway 40 halfway-IsValid (omega arith)
