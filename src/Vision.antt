-- ===== src/Vision.antt =====
-- modules/vision/dev_vision.c: the byte parser of the K230/OpenMV link and its target record.
-- A frame is AA 55 len type payload[len] crc 0D 0A, where crc is the exclusive or of len, type and
-- the payload. `Vision` is `DevVision`; an operation returns the new record beside its result.
pub mod Bounds
pub mod Frames
pub mod Target
pub mod Resync
pub mod Board
mod Tests
use nuedc_control_car_freert.Prelude.{
  ℕ, ◌+◌, ◌*◌, ◌%◌, ◌^◌, Bool, true, false, ◌&&◌, ◌||◌, List, [], ◌∷◌, ltb, leb, ◌==◌, set, get_or,
  replicate, bit_or, bit_xor, if◌then◌else◌,
}
use nuedc_control_car_freert.Prelude.Int.{ℤ, pos}
use nuedc_control_car_freert.Prelude.Words.{u8, u16, signed16}

-- DEV_VISION_MAX_PAYLOAD
abbrev pub max_payload : ℕ
max_payload = 32

-- `ts_ms` is a uint32_t, the centre an int16_t pair.
pub record VisionTarget : Type 0 where
  pub center_x : ℤ
  pub center_y : ℤ
  pub class_id : ℕ
  pub area : ℕ
  pub ts_ms : ℕ

pub data EventType : Type 0 where
  none_event target_event command_event : EventType

pub record VisionEvent : Type 0 where
  pub type : EventType
  pub target : VisionTarget
  pub command : ℕ
  pub frame_type : ℕ

pub data ParseState : Type 0 where
  sync1 sync2 ps_len ps_type ps_data ps_crc ps_cr ps_lf : ParseState

pub record Vision : Type 0 where
  pub state : ParseState
  pub len : ℕ
  pub frame_type : ℕ
  pub index : ℕ
  pub crc_calc : ℕ
  pub payload : List ℕ
  pub target : VisionTarget
  pub fresh_target : Bool

abbrev pub zero_target : VisionTarget
zero_target = record { center_x = pos 0; center_y = pos 0; class_id = 0; area = 0; ts_ms = 0 }

-- `clear_event`: the event that `memset` leaves
abbrev pub clear_event : VisionEvent
clear_event = record { type = none_event; target = zero_target; command = 0; frame_type = 0 }

-- `Dev_Vision_Init`
unfoldable pub init : Vision
init = record {
  state = sync1;
  len = 0;
  frame_type = 0;
  index = 0;
  crc_calc = 0;
  payload = replicate max_payload 0;
  target = zero_target;
  fresh_target = false;
}

-- `Dev_Vision_ResetParser`
unfoldable pub reset_parser : Vision → Vision
reset_parser v = record v { state = sync1; len = 0; frame_type = 0; index = 0; crc_calc = 0 }

-- payload[i], a byte of the array; `Bounds` shows that no index leaves it
abbrev pub byte_at : Vision → ℕ → ℕ
byte_at v i = get_or v.payload i 0

-- payload[i] | ((uint16_t)payload[i + 1] << 8)
abbrev pub le16 : Vision → ℕ → ℕ → ℕ
le16 v i j = bit_or (byte_at v i) (u16 (byte_at v j * 256))

-- the assignments to `vision->target`
abbrev pub decode_target : Vision → ℕ → VisionTarget
decode_target v now_ms = record {
  center_x = signed16 (le16 v 0 1);
  center_y = signed16 (le16 v 2 3);
  class_id = byte_at v 4;
  area = le16 v 5 6;
  ts_ms = now_ms;
}

unfoldable pub dispatch_frame : Vision → ℕ → Vision × Bool × VisionEvent
dispatch_frame v now_ms =
    let t = decode_target v now_ms in
    if v.frame_type == 1 && leb 7 v.len
    then (
      record v { target = t; fresh_target = true },
      true,
      record clear_event { type = target_event; target = t; frame_type = v.frame_type },
    )
    else if v.frame_type == 2 && leb 1 v.len
    then (
      v,
      true,
      record clear_event { type = command_event; command = byte_at v 0; frame_type = v.frame_type },
    )
    else (v, false, clear_event)

-- the case DEV_VISION_PS_DATA: store, then see whether the payload is complete
unfoldable pub on_data : Vision → ℕ → Vision
on_data v byte =
    let w =
      if ltb v.index v.len
      then record v {
        payload = set v.payload v.index byte;
        index = u8 (v.index + 1);
        crc_calc = bit_xor v.crc_calc byte;
      }
      else v in
    if leb w.len w.index then record w { state = ps_crc } else w

-- the `switch` of `Dev_Vision_OnRxByte`
unfoldable pub step : ParseState → Vision → ℕ → ℕ → Vision × Bool × VisionEvent
unfolding on_data dispatch_frame
step sync1 v byte now_ms =
    ((if byte == 0xAA then record v { state = sync2 } else v), false, clear_event)
step sync2 v byte now_ms =
    (record v { state = if byte == 0x55 then ps_len else sync1 }, false, clear_event)
step ps_len v byte now_ms = (
  (if byte == 0 || ltb max_payload byte
      then record v { state = sync1 }
      else record v { len = byte; crc_calc = byte; state = ps_type }),
  false,
  clear_event,
)
step ps_type v byte now_ms = (
  record v { frame_type = byte; crc_calc = bit_xor v.crc_calc byte; index = 0; state = ps_data },
  false,
  clear_event,
)
step ps_data v byte now_ms = (on_data v byte, false, clear_event)
step ps_crc v byte now_ms =
    (record v { state = if byte == v.crc_calc then ps_cr else sync1 }, false, clear_event)
step ps_cr v byte now_ms =
    (record v { state = if byte == 0x0D then ps_lf else sync1 }, false, clear_event)
step ps_lf v byte now_ms =
    if byte == 0x0A
    then dispatch_frame (record v { state = sync1 }) now_ms
    else (record v { state = sync1 }, false, clear_event)

-- `Dev_Vision_OnRxByte`: the new parser, the return value, and what `*event` holds
unfoldable pub on_rx_byte : Vision → ℕ → ℕ → Vision × Bool × VisionEvent
unfolding step
on_rx_byte v byte now_ms = step v.state v byte now_ms

-- `Dev_Vision_HasFreshTarget`: the flag is cleared by the read
unfoldable pub has_fresh_target : Vision → Vision × Bool
has_fresh_target v =
    if v.fresh_target then (record v { fresh_target = false }, true) else (v, false)

-- `Dev_Vision_GetTarget`
unfoldable pub get_target : Vision → VisionTarget
get_target v = v.target

-- bytes arriving at one time, with the events that calls returning 1 leave, in order
unfoldable pub feed : ℕ → Vision → List ℕ → Vision × List VisionEvent
feed now_ms v [] = (v, [])
feed now_ms v (b ∷ bs) =
    let (w, done, e) = on_rx_byte v b now_ms in
    let (u, es) = feed now_ms w bs in (u, if done then e ∷ es else es)
