-- ===== src/Rtt/Queue.antt =====
-- The ring buffer as a queue of the characters that the probe has not read yet.
use mathlib.Core.Path.{subst}
use mathlib.Core.List.{append-nil, append_assoc}
use nuedc_control_car_freert.Prelude.{
  ℕ, zero, suc, ◌+◌, ◌-◌, ◌<◌, ◌≡◌, ◌≢◌, refl, sym, ap, ◌∙◌, Bool, true, false, not, List, [], ◌∷◌,
  ◌++◌, length, set, get_or, get_or-set_self, get_or-set_ne, length-set, ltb, leb, ◌==◌, ◌||◌,
  if◌then◌else◌, Bool-cases, inl, inr, arith,
}
use nuedc_control_car_freert.Rtt.{UpBuffer, space_available, next, put, refuses, write}

-- the number of steps from r on to w
abbrev pub distance : ℕ → ℕ → ℕ → ℕ
distance size r w = if leb r w then w - r else w + size - r

-- n characters from r on
abbrev pub read_from : ℕ → List ℕ → ℕ → ℕ → List ℕ
read_from size buffer r zero = []
read_from size buffer r (suc n) = get_or buffer r 0 ∷ read_from size buffer (next size r) n

-- the characters that wait for the probe, the oldest first
abbrev pub pending : UpBuffer → List ℕ
pending b = read_from b.size b.buffer b.rd_off (distance b.size b.rd_off b.wr_off)

pub record IsValid (b : UpBuffer) : Type 0 where
  pub length : length b.buffer ≡ b.size
  pub wr : b.wr_off < b.size
  pub rd : b.rd_off < b.size

next-distance :
    (size r w n : ℕ)
    → r < size
    → w < size
    → distance size r w ≡ suc n
    → (r ≢ w) × (next size r < size) × (distance size (next size r) w ≡ n)
next-distance size r w n pr pw d = (λ e. ground arith, ground arith, ground arith)

read_from-set_other :
    (size : ℕ) (buffer : List ℕ) (r w x n : ℕ)
    → r < size
    → w < size
    → distance size r w ≡ n
    → read_from size (set buffer w x) r n ≡ read_from size buffer r n
read_from-set_other size buffer r w x zero pr pw d = refl
read_from-set_other size buffer r w x (suc n) pr pw d =
    let (apart, next_in, rest) = next-distance size r w n pr pw d in
    rw
      (
        get_or-set_ne buffer x 0 (λ e. apart (sym e)),
        read_from-set_other size buffer (next size r) w x n next_in pw rest,
      )
      refl

read_from-set_end :
    (size : ℕ) (buffer : List ℕ) (r w x n : ℕ)
    → length buffer ≡ size
    → r < size
    → w < size
    → distance size r w ≡ n
    → read_from size (set buffer w x) r (suc n) ≡ read_from size buffer r n ++ x ∷ []
read_from-set_end size buffer r w x zero full pr pw d =
    let same : r ≡ w = ground arith in rw (same, get_or-set_self buffer w x 0 (omega arith)) refl
read_from-set_end size buffer r w x (suc n) full pr pw d =
    let (apart, next_in, rest) = next-distance size r w n pr pw d in
    rw
      (
        get_or-set_ne buffer x 0 (λ e. apart (sym e)),
        read_from-set_end size buffer (next size r) w x n full next_in pw rest,
      )
      refl

after_next :
    (size r w n : ℕ)
    → r < size
    → w < size
    → distance size r w ≡ n
    → suc n < size
    → (next size w < size) × (distance size r (next size w) ≡ suc n)
after_next size r w n pr pw d room = (ground arith, ground arith)

-- the loop of the write appends its characters to what waits
put_lem :
    (size : ℕ) (buffer : List ℕ) (r w n m : ℕ) (xs : List ℕ)
    → length buffer ≡ size
    → r < size
    → w < size
    → distance size r w ≡ n
    → m ≡ n + length xs
    → m < size
    → let (buffer', w') = put size buffer w xs in
      (read_from size buffer' r m ≡ read_from size buffer r n ++ xs)
      × (distance size r w' ≡ m)
      × (w' < size)
      × (length buffer' ≡ size)
unfolding put
put_lem size buffer r w n m [] full pr pw d e room =
    let same : m ≡ n = omega arith in rw same (sym (append-nil _), d, pw, full)
put_lem size buffer r w n m (x ∷ xs) full pr pw d e room =
    let (next_in, far) = after_next size r w n pr pw d (omega arith) in
    let (reads, far, wr_in, full_after) =
      put_lem size (set buffer w x) r (next size w) (suc n) m xs (length-set buffer w x ∙ full) pr
        next_in far (omega arith) room in
    (
      reads
          ∙ ap (λ l. l ++ xs) (read_from-set_end size buffer r w x n full pr pw d)
          ∙ append_assoc (read_from size buffer r n) (x ∷ []) xs,
      far,
      wr_in,
      full_after,
    )

length-read_from : (size : ℕ) (buffer : List ℕ) (r n : ℕ) → length (read_from size buffer r n) ≡ n
length-read_from size buffer r zero = refl
length-read_from size buffer r (suc n) = ap suc (length-read_from size buffer (next size r) n)

refuses_lem :
    (b : UpBuffer) (len : ℕ)
    → IsValid b
    → refuses b len ≡ (len == 0 || not (ltb (distance b.size b.rd_off b.wr_off + len) b.size))
unfolding refuses space_available
refuses_lem b len v = ground arith

waiting : (b : UpBuffer) → length (pending b) ≡ distance b.size b.rd_off b.wr_off
waiting b = length-read_from b.size b.buffer b.rd_off (distance b.size b.rd_off b.wr_off)

if_nil : (t : Bool) (l : List ℕ) → l ≡ (if t then l ++ [] else l)
if_nil true l = sym (append-nil l)
if_nil false l = refl

write_refused : (b : UpBuffer) (xs : List ℕ) → refuses b (length xs) ≡ true → write b xs ≡ b
unfolding write
write_refused b xs h = rw h refl

write_taken :
    (b : UpBuffer) (xs : List ℕ)
    → refuses b (length xs) ≡ false
    → let (buffer, wr) = put b.size b.buffer b.wr_off xs in
      write b xs ≡ record b { buffer = buffer; wr_off = wr }
unfolding write
write_taken b xs h = rw h refl

-- what the theorem below says of one write
Queued : UpBuffer → List ℕ → UpBuffer → Type 0
Queued b xs after =
    (pending after
      ≡ (if ltb (length (pending b) + length xs) b.size then pending b ++ xs else pending b))
    × IsValid after

write_some : (b : UpBuffer) (x : ℕ) (xs : List ℕ) → IsValid b → Queued b (x ∷ xs) (write b (x ∷ xs))
unfolding Queued
write_some b x xs v =
    let d = distance b.size b.rd_off b.wr_off in
    let total = d + length (x ∷ xs) in
    let count = ap (λ n. ltb (n + length (x ∷ xs)) b.size) (waiting b) in
    elim (Bool-cases (ltb total b.size)) [
      | inl fits ↦
          let (reads, far, wr_in, full) =
            put_lem b.size b.buffer b.rd_off b.wr_off d total (x ∷ xs) v.length v.rd v.wr refl refl
              (ground arith) in
          let taken = write_taken b (x ∷ xs) (refuses_lem b (length (x ∷ xs)) v ∙ ground arith) in
          subst (Queued b (x ∷ xs)) (sym taken) (
            ap (read_from b.size (put b.size b.buffer b.wr_off (x ∷ xs)).0 b.rd_off) far
                ∙ reads
                ∙ ap (λ t. if t then pending b ++ x ∷ xs else pending b) (sym (count ∙ fits)),
            record { length = full; wr = wr_in; rd = v.rd },
          )
      | inr over ↦
          let refused =
            write_refused b (x ∷ xs) (refuses_lem b (length (x ∷ xs)) v ∙ ground arith) in
          subst (Queued b (x ∷ xs)) (sym refused)
            (ap (λ t. if t then pending b ++ x ∷ xs else pending b) (sym (count ∙ over)), v)
    ]

-- The log is a bounded queue. A write to a valid buffer appends its characters to those that the
-- probe has not read if all of them together are fewer than the size of the buffer, and else leaves
-- those as they are; the buffer stays valid.
pub write_queues :
    (b : UpBuffer) (xs : List ℕ)
    → IsValid b
    → (pending (write b xs)
        ≡ (if ltb (length (pending b) + length xs) b.size then pending b ++ xs else pending b))
      × IsValid (write b xs)
unfolding Queued
write_queues b [] v =
    let refused = write_refused b [] (refuses_lem b 0 v) in
    subst (Queued b []) (sym refused) (if_nil (ltb (length (pending b) + 0) b.size) (pending b), v)
write_queues b (x ∷ xs) v = write_some b x xs v
