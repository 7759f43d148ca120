-- ===== src/Rtt.antt =====
-- modules/telemetry/rtt_log.c: the ring buffer that a debug probe reads. The names and flags of the
-- control block and the unused down buffer are left out; the probe moves `rd_off` between the calls.
pub mod Queue
mod Tests
use nuedc_control_car_freert.Prelude.{
  ℕ, zero, suc, ◌+◌, ◌-◌, Bool, List, [], ◌∷◌, length, set, replicate, ltb, leb, ◌==◌, ◌||◌,
  if◌then◌else◌,
}
use nuedc_control_car_freert.Prelude.Words.{u32}

-- `RTTBufferUp_t`
pub record UpBuffer : Type 0 where
  pub buffer : List ℕ
  pub size : ℕ
  pub wr_off : ℕ
  pub rd_off : ℕ

-- `_SEGGER_RTT.up[0]` at the start
abbrev pub empty : UpBuffer
empty = record { buffer = replicate 4096 0; size = 4096; wr_off = 0; rd_off = 0 }

unfoldable pub space_available : UpBuffer → ℕ
space_available b =
    if ltb b.wr_off b.rd_off then b.rd_off - b.wr_off - 1 else b.size - b.wr_off + b.rd_off - 1

-- `wr++; if (wr >= buf->size) wr = 0u;`
abbrev pub next : ℕ → ℕ → ℕ
next size wr = if leb size (wr + 1) then 0 else wr + 1

-- the loop of the write: the buffer and the offset
unfoldable pub put : ℕ → List ℕ → ℕ → List ℕ → List ℕ × ℕ
put size buffer wr [] = (buffer, wr)
put size buffer wr (x ∷ xs) = put size (set buffer wr x) (next size wr) xs

-- the three early returns
unfoldable pub refuses : UpBuffer → ℕ → Bool
refuses b len = len == 0 || leb b.size len || ltb (space_available b) len

unfoldable pub write : UpBuffer → List ℕ → UpBuffer
write b data_in =
    let (buffer, wr) = put b.size b.buffer b.wr_off data_in in
    if refuses b (length data_in) then b else record b { buffer = buffer; wr_off = wr }

-- the characters before the terminating zero
abbrev pub until_nul : List ℕ → List ℕ
until_nul [] = []
until_nul (c ∷ cs) = let rest = until_nul cs in if c == 0 then [] else c ∷ rest

unfoldable pub write_string : UpBuffer → List ℕ → UpBuffer
write_string b s = write b (until_nul s)
