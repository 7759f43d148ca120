-- ===== src/Vision/Frames.antt =====
-- Whole frames: what the parser makes of AA 55 len type payload crc 0D 0A, byte by byte.
use native.Mathlib.Nat.{add-zero}
use nuedc_control_car_freert.Prelude.{
  ℕ, zero, suc, ◌+◌, ◌≤◌, ◌<◌, ◌≡◌, refl, ap, ◌∙◌, Bool, false, List, [], ◌∷◌, ◌++◌, arith, length,
  set, get_or, get_or-set_self, get_or-set_ne, length-set, ◌==◌, bit_xor, if◌then◌else◌, Bool-cases,
  inl, inr,
}
use nuedc_control_car_freert.Vision.{
  Vision, VisionEvent, clear_event, sync1, ps_data, ps_crc, max_payload, on_data, dispatch_frame,
  step, on_rx_byte, feed,
}

-- the checksum of the bytes after a running value
abbrev pub checksum : ℕ → List ℕ → ℕ
checksum c [] = c
checksum c (b ∷ bs) = checksum (bit_xor c b) bs

-- the payload array with `bs` written from index `i` on
abbrev pub overwrite : List ℕ → ℕ → List ℕ → List ℕ
overwrite xs i [] = xs
overwrite xs i (b ∷ bs) = overwrite (set xs i b) (i + 1) bs

abbrev pub frame_crc : ℕ → List ℕ → ℕ
frame_crc type payload = checksum (bit_xor (length payload) type) payload

abbrev pub frame_bytes : ℕ → List ℕ → ℕ → List ℕ
frame_bytes type payload crc =
    0xAA ∷ 0x55 ∷ length payload ∷ type ∷ (payload ++ (crc ∷ 0x0D ∷ 0x0A ∷ []))

-- the parser that has taken in a payload and waits for the checksum
abbrev pub received : Vision → ℕ → List ℕ → Vision
received v type payload = record v {
  state = ps_crc;
  len = length payload;
  frame_type = type;
  index = length payload;
  crc_calc = frame_crc type payload;
  payload = overwrite v.payload 0 payload;
}

abbrev pub events_of : Vision × Bool × VisionEvent → Vision × List VisionEvent
events_of (v, done, e) = (v, if done then e ∷ [] else [])

on_data_more :
    (v : Vision) (b : ℕ)
    → v.state ≡ ps_data
    → v.index + 1 < v.len
    → v.len ≤ max_payload
    → on_data v b ≡ record v {
      payload = set v.payload v.index b;
      index = v.index + 1;
      crc_calc = bit_xor v.crc_calc b;
    }
unfolding on_data
on_data_more v b e h m = ground arith

on_data_last :
    (v : Vision) (b : ℕ)
    → v.index + 1 ≡ v.len
    → v.len ≤ max_payload
    → on_data v b ≡ record v {
      state = ps_crc;
      payload = set v.payload v.index b;
      index = v.index + 1;
      crc_calc = bit_xor v.crc_calc b;
    }
unfolding on_data
on_data_last v b h m = ground arith

abbrev loaded : Vision → List ℕ → Vision
loaded v bs = record v {
  state = ps_crc;
  index = v.index + length bs;
  crc_calc = checksum v.crc_calc bs;
  payload = overwrite v.payload v.index bs;
}

-- A byte that reports nothing passes the work on to the bytes behind it.
pub feed_silent :
    (now_ms : ℕ) (v w : Vision) (b : ℕ) (bs : List ℕ)
    → on_rx_byte v b now_ms ≡ (w, false, clear_event)
    → feed now_ms v (b ∷ bs) ≡ feed now_ms w bs
unfolding feed
feed_silent now_ms v w b bs e = rw e

on_rx_byte-data :
    (now_ms : ℕ) (v : Vision) (b : ℕ)
    → on_rx_byte (record v { state = ps_data }) b now_ms
      ≡ (on_data (record v { state = ps_data }) b, false, clear_event)
unfolding on_rx_byte step
on_rx_byte-data now_ms v b = refl

feed_data :
    (now_ms : ℕ) (v : Vision) (b : ℕ) (bs rest : List ℕ)
    → v.len ≡ v.index + length (b ∷ bs)
    → v.len ≤ max_payload
    → feed now_ms (record v { state = ps_data }) ((b ∷ bs) ++ rest)
      ≡ feed now_ms (loaded v (b ∷ bs)) rest
feed_data now_ms v b [] rest h m =
    feed_silent now_ms (record v { state = ps_data }) (loaded v (b ∷ [])) b rest
      (on_rx_byte-data now_ms v b
        ∙ rw (on_data_last (record v { state = ps_data }) b (omega arith) m))
feed_data now_ms v b (c ∷ bs) rest h m =
    feed_silent now_ms (record v { state = ps_data }) (record w { state = ps_data }) b
      ((c ∷ bs) ++ rest)
      (on_rx_byte-data now_ms v b
        ∙ rw (on_data_more (record v { state = ps_data }) b refl (omega arith) m))
    ∙ feed_data now_ms w c bs rest (omega arith) m
    ∙ ap (λ k. feed now_ms (record (loaded v (b ∷ c ∷ bs)) { index = k }) rest) (omega arith)
  where
    w : Vision
    w = record v {
      payload = set v.payload v.index b;
      index = v.index + 1;
      crc_calc = bit_xor v.crc_calc b;
    }

-- the header of a frame, from the state in which the parser looks for one
feed_header :
    (now_ms : ℕ) (v : Vision) (n type : ℕ) (rest : List ℕ)
    → 0 < n
    → n ≤ max_payload
    → feed now_ms (record v { state = sync1 }) (0xAA ∷ 0x55 ∷ n ∷ type ∷ rest)
      ≡ feed now_ms
          (record v {
            state = ps_data;
            len = n;
            frame_type = type;
            index = 0;
            crc_calc = bit_xor n type;
          })
          rest
unfolding feed on_rx_byte step
feed_header now_ms v n type rest pos_n small = ground arith

-- the checksum and the terminator
feed_trailer :
    (now_ms : ℕ) (v : Vision) (crc : ℕ)
    → v.state ≡ ps_crc
    → feed now_ms v (crc ∷ 0x0D ∷ 0x0A ∷ []) ≡ (
        if crc == v.crc_calc
        then events_of (dispatch_frame (record v { state = sync1 }) now_ms)
        else (record v { state = sync1 }, []))
unfolding feed on_rx_byte step
feed_trailer now_ms v crc e = elim (Bool-cases (crc == v.crc_calc)) [
  | inl same ↦ rw (e, same)
  | inr other ↦ rw (e, other)
]

-- A parser that looks for a frame and is fed one, with any checksum byte, is back in that state with
-- the payload stored: it dispatches the frame if the checksum is that of length, type and payload,
-- and otherwise reports nothing.
pub parse_frame :
    (now_ms : ℕ) (v : Vision) (type crc : ℕ) (payload : List ℕ)
    → v.state ≡ sync1
    → 0 < length payload
    → length payload ≤ max_payload
    → feed now_ms v (frame_bytes type payload crc) ≡ (
        if crc == frame_crc type payload
        then events_of (dispatch_frame (record (received v type payload) { state = sync1 }) now_ms)
        else (record (received v type payload) { state = sync1 }, []))
parse_frame now_ms v type crc [] e pos_n small = absurd (omega arith)
parse_frame now_ms v type crc (b ∷ bs) e pos_n small =
    (λ i. feed now_ms (record v { state = e i }) (frame_bytes type (b ∷ bs) crc))
    ∙ feed_header now_ms v (length (b ∷ bs)) type ((b ∷ bs) ++ trailer) pos_n small
    ∙ feed_data now_ms w b bs trailer (omega arith) small
    ∙ ap (λ k. feed now_ms (record (received v type (b ∷ bs)) { index = k }) trailer) (omega arith)
    ∙ feed_trailer now_ms (received v type (b ∷ bs)) crc refl
  where
    trailer : List ℕ
    trailer = crc ∷ 0x0D ∷ 0x0A ∷ []

    w : Vision
    w = record v {
      len = length (b ∷ bs);
      frame_type = type;
      index = 0;
      crc_calc = bit_xor (length (b ∷ bs)) type;
    }

get_or-overwrite_below :
    (xs bs : List ℕ) (i k d : ℕ) → k < i → get_or (overwrite xs i bs) k d ≡ get_or xs k d
get_or-overwrite_below xs [] i k d h = refl
get_or-overwrite_below xs (b ∷ bs) i k d h =
    get_or-overwrite_below (set xs i b) bs (i + 1) k d (omega arith)
    ∙ get_or-set_ne xs b d (omega arith)

-- What was written from index `i` on is read back there.
pub get_or-overwrite :
    (xs bs : List ℕ) (i j d : ℕ)
    → i + length bs ≤ length xs
    → j < length bs
    → get_or (overwrite xs i bs) (i + j) d ≡ get_or bs j d
get_or-overwrite xs [] i j d room h = absurd (omega arith)
get_or-overwrite xs (b ∷ bs) i zero d room h =
    ap (λ k. get_or (overwrite (set xs i b) (i + 1) bs) k d) (add-zero i)
    ∙ get_or-overwrite_below (set xs i b) bs (i + 1) i d (omega arith)
    ∙ get_or-set_self xs i b d (omega arith)
get_or-overwrite xs (b ∷ bs) i (suc j) d room h =
    ap (λ k. get_or (overwrite (set xs i b) (i + 1) bs) k d)
      (let e : i + suc j ≡ i + 1 + j = omega arith in e)
    ∙ get_or-overwrite (set xs i b) bs (i + 1) j d (omega (arith, length-set xs i b)) (omega arith)
