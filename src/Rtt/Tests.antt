-- ===== src/Rtt/Tests.antt =====
-- Runs of the log, and the theorem at a concrete input.
use nuedc_control_car_freert.Prelude.{◌≡◌, refl, [], ◌∷◌, arith}
use nuedc_control_car_freert.Rtt.{UpBuffer, write, refuses, space_available, put}
use nuedc_control_car_freert.Rtt.Queue.{IsValid, pending, write_queues}

-- a buffer of four places, about to wrap, in which one character waits
abbrev nearly_round : UpBuffer
nearly_round = record { buffer = 9 ∷ 9 ∷ 7 ∷ 9 ∷ []; size = 4; wr_off = 3; rd_off = 2 }

nearly_round-IsValid : IsValid nearly_round
nearly_round-IsValid = record { length = refl; wr = omega arith; rd = omega arith }

wraps :
    write nearly_round (1 ∷ 2 ∷ [])
    ≡ record nearly_round { buffer = 2 ∷ 9 ∷ 7 ∷ 1 ∷ []; wr_off = 1 }
unfolding write refuses space_available put
wraps = refl

write_queues_example :
    (pending (write nearly_round (1 ∷ 2 ∷ [])) ≡ 7 ∷ 1 ∷ 2 ∷ [])
    × IsValid (write nearly_round (1 ∷ 2 ∷ []))
write_queues_example = write_queues nearly_round (1 ∷ 2 ∷ []) nearly_round-IsValid
