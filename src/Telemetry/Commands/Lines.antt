-- ===== src/Telemetry/Commands/Lines.antt =====
-- From received bytes to lines: what the buffer holds when a line ends.
use native.Mathlib.Nat.{add-zero}
use mathlib.Core.List.{append-nil}
use nuedc_control_car_freert.Prelude.{
  ℕ, suc, ◌+◌, ◌<◌, ◌≤◌, ◌≡◌, ◌≢◌, refl, sym, ap, ◌∙◌, false, List, [], ◌∷◌, ◌++◌, none, arith,
  length, set, length-set, ◌==◌,
}
use nuedc_control_car_freert.Telemetry.Commands.{
  Telemetry, Reply, until_nul, find, is_line_end, handle_command, handle_line, on_newline, store,
  on_rx_byte,
}

-- neither the end of a line or of a text nor one of the two shortcuts `s` and `x`
abbrev pub IsPlain : ℕ → Type 0
IsPlain c = (0 < c) × (c < 256) × (c ≢ b's') × (c ≢ b'x') × (c ≢ 10) × (c ≢ 13)

abbrev pub AllPlain : List ℕ → Type 0
AllPlain [] = Unit
AllPlain (c ∷ cs) = IsPlain c × AllPlain cs

-- the state and the replies after a sequence of bytes
abbrev pub feed : Telemetry → List ℕ → Telemetry × List Reply
feed t [] = (t, [])
feed t (b ∷ bs) =
    let (after, replies) = on_rx_byte t b in
    let (last, more) = feed after bs in (last, replies ++ more)

-- a buffer with a text written from place `i` on
abbrev pub overwrite : List ℕ → ℕ → List ℕ → List ℕ
overwrite buf i [] = buf
overwrite buf i (c ∷ cs) = overwrite (set buf i c) (i + 1) cs

abbrev pub typed : Telemetry → List ℕ → Telemetry
typed t cs = record t {
  cmd_buf = overwrite t.cmd_buf t.cmd_idx cs;
  cmd_idx = t.cmd_idx + length cs;
}

plain_byte :
    (t : Telemetry) (c : ℕ)
    → IsPlain c
    → t.cmd_idx < 79
    → on_rx_byte t c
      ≡ (record t { cmd_buf = set t.cmd_buf t.cmd_idx c; cmd_idx = t.cmd_idx + 1 }, [])
unfolding on_rx_byte store
plain_byte t c plain room = ground arith

pub feed_plain :
    (t : Telemetry) (cs rest : List ℕ)
    → AllPlain cs
    → t.cmd_idx + length cs ≤ 79
    → feed t (cs ++ rest) ≡ feed (typed t cs) rest
feed_plain t [] rest plain room =
    ap (λ i. feed (record t { cmd_idx = i }) rest) (sym (add-zero t.cmd_idx))
feed_plain t (c ∷ cs) rest (this, others) room =
    let stored = record t { cmd_buf = set t.cmd_buf t.cmd_idx c; cmd_idx = t.cmd_idx + 1 } in
    let end : t.cmd_idx + 1 + length cs ≡ t.cmd_idx + suc (length cs) = omega arith in
    rw (plain_byte t c this (omega arith)) (
      feed_plain stored cs rest others (omega arith)
      ∙ ap
          (λ i.
            feed
              (record t {
                cmd_buf = overwrite (set t.cmd_buf t.cmd_idx c) (t.cmd_idx + 1) cs;
                cmd_idx = i;
              })
              rest)
          end)

pub overwrite-cons :
    (b : ℕ) (buf : List ℕ) (i : ℕ) (cs : List ℕ)
    → overwrite (b ∷ buf) (suc i) cs ≡ b ∷ overwrite buf i cs
overwrite-cons b buf i [] = refl
overwrite-cons b buf i (c ∷ cs) =
    ap (λ k. overwrite (b ∷ set buf i c) k cs) (omega arith)
    ∙ overwrite-cons b (set buf i c) (i + 1) cs

pub length-overwrite :
    (buf : List ℕ) (i : ℕ) (cs : List ℕ) → length (overwrite buf i cs) ≡ length buf
length-overwrite buf i [] = refl
length-overwrite buf i (c ∷ cs) = length-overwrite (set buf i c) (i + 1) cs ∙ length-set buf i c

until_nul-overwrite :
    (buf cs : List ℕ)
    → AllPlain cs
    → length cs < length buf
    → until_nul (set (overwrite buf 0 cs) (length cs) 0) ≡ cs
until_nul-overwrite [] cs plain room = absurd (omega arith)
until_nul-overwrite (b ∷ buf) [] plain room = refl
until_nul-overwrite (b ∷ buf) (c ∷ cs) (this, rest) room =
    let nonzero : (c == 0) ≡ false = ground arith in
    rw (overwrite-cons c buf 0 cs, nonzero, until_nul-overwrite buf cs rest (omega arith)) refl

find-plain : (cs : List ℕ) → AllPlain cs → find is_line_end cs ≡ none
find-plain [] plain = refl
find-plain (c ∷ cs) (this, rest) = rw (find-plain cs rest) (ground arith)

-- the state in which a line's command is carried out
abbrev pub read_line : Telemetry → List ℕ → Telemetry
read_line t cs = record t {
  cmd_buf = set (overwrite t.cmd_buf 0 cs) (length cs) 0;
  cmd_idx = length cs;
}

abbrev pub finish : Telemetry × List Reply → Telemetry × List Reply
finish (t, replies) = (record t { cmd_idx = 0 }, replies)

pub typed_fresh :
    (t : Telemetry) (cs : List ℕ)
    → t.cmd_idx ≡ 0
    → typed t cs ≡ record t { cmd_buf = overwrite t.cmd_buf 0 cs; cmd_idx = length cs }
typed_fresh t cs fresh =
    ap (λ i. record t { cmd_buf = overwrite t.cmd_buf i cs; cmd_idx = i + length cs }) fresh
    ∙ ap (λ n. record t { cmd_buf = overwrite t.cmd_buf 0 cs; cmd_idx = n }) (omega arith)

feed_newline :
    (t : Telemetry) (cs : List ℕ)
    → AllPlain cs
    → until_nul (set t.cmd_buf t.cmd_idx 0) ≡ cs
    → feed t (10 ∷ [])
      ≡ finish (handle_command (record t { cmd_buf = set t.cmd_buf t.cmd_idx 0 }) cs)
unfolding on_rx_byte on_newline handle_line
feed_newline t cs plain text = rw (text, find-plain cs plain, append-nil) refl

-- Each line of at most 79 characters, with none of the shortcuts `s` and `x` in it and received at
-- the start of the buffer, is handed to the command parser exactly as it was sent; what follows it
-- is then received at the start of the buffer.
pub feed_line :
    (t : Telemetry) (cs : List ℕ)
    → AllPlain cs
    → length cs ≤ 79
    → length t.cmd_buf ≡ 80
    → t.cmd_idx ≡ 0
    → feed t (cs ++ 10 ∷ []) ≡ finish (handle_command (read_line t cs) cs)
feed_line t cs plain short size fresh =
    feed_plain t cs (10 ∷ []) plain (omega arith)
    ∙ ap (λ u. feed u (10 ∷ [])) (typed_fresh t cs fresh)
    ∙ feed_newline (record t { cmd_buf = overwrite t.cmd_buf 0 cs; cmd_idx = length cs }) cs plain
        (until_nul-overwrite t.cmd_buf cs plain (omega arith))
