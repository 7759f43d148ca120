-- ===== src/Platform/I2c/Tests.antt =====
-- A run of the I2C driver, with a device that answers after a while.
use nuedc_control_car_freert.Prelude.{
  ℕ, zero, suc, ◌-◌, ◌/◌, ◌<◌, ◌≡◌, refl, ap, Bool, true, false, ◌||◌, not, List, [], ◌∷◌, ◌++◌,
  arith, length, take, ◌==◌, is_empty,
}
use nuedc_control_car_freert.Platform.I2c.{I2cLib, I2cBus, I2cStatus, I2cRegister, read_reg8}
use nuedc_control_car_freert.Platform.I2c.Ready.{Wire, IsAnswering, read_reg8_succeeds}

record Line : Type 0 where
  left : ℕ
  fifo : List ℕ
  coming : List ℕ
  lag : ℕ

abbrev status_at : ℕ → I2cStatus
status_at zero = record { busy = false; idle = true; error = false; busy_bus = false }
status_at (suc n) = record { busy = true; idle = false; error = false; busy_bus = true }

abbrev registers : List ℕ
registers = 71 ∷ 2 ∷ 9 ∷ 30 ∷ []

-- nothing is there yet
abbrev is_away : Line → Bool
is_away v = not (v.lag == 0) || is_empty v.coming

abbrev next_byte : Line → List ℕ → Line × ℕ
next_byte v [] = (v, 0)
next_byte v (b ∷ bs) = (record v { coming = bs; lag = 3; left = 7 }, b)

abbrev write_reg : Line → I2cRegister → ℕ → Line
write_reg v I2cRegister.msa value = v
write_reg v I2cRegister.mctr value = record v {
  coming = take (value / 65536) registers;
  lag = 5;
  left = 20;
}

abbrev line_lib : I2cLib Line
line_lib = record {
  status = λ v. (record v { left = v.left - 1 }, status_at v.left);
  reset_transfer = λ v. record v { fifo = [] };
  disable = λ v. v;
  enable = λ v. v;
  flush_tx = λ v. record v { fifo = [] };
  fill_tx = λ v bytes. (record v { fifo = v.fifo ++ bytes }, length bytes);
  start_tx = λ v address n. v;
  rx_empty = λ v. (record v { lag = v.lag - 1 }, is_away v);
  receive = λ v. next_byte v v.coming;
  update_reg = λ v register value mask. write_reg v register value;
  fields = record {
    saddr_ofs = 1;
    direction_rx = 1;
    msa_mask = 255;
    mblen_ofs = 16;
    burstrun = 1;
    start = 2;
    rd_on_txempty = 8;
    stop = 4;
    mctr_mask = 255;
  };
}

abbrev sensor_bus : I2cBus
sensor_bus = record { inst = 1; wait_limit = 100; tx_fifo_bytes = 0 }

abbrev line : Wire Line
line = record { left = λ v. v.left; fifo = λ v. v.fifo; coming = λ v. v.coming; lag = λ v. v.lag }

abbrev answered : List ℕ
answered = 71 ∷ 2 ∷ 9 ∷ []

line-IsAnswering : IsAnswering line_lib sensor_bus line 104 117 answered
line-IsAnswering = record {
  over = λ v h. ap status_at h;
  running = λ v h. is_running v.left h;
  no_error = λ v. no_errors v.left;
  polled = λ v. omega arith;
  polled_fifo = λ v. refl;
  reset = λ v. (omega arith, refl);
  filled = λ v packet h few. (refl, ap (λ l. l ++ packet) h, omega arith);
  started = λ v h held. (refl, omega arith);
  looked = λ v. (refl, omega arith);
  arrived = λ v b bs come h. rw (come, h) refl;
  received = λ v b bs come here. rw come (refl, refl, omega arith, λ none. omega arith);
}
  where
    is_running : (n : ℕ) → 0 < n → (status_at n).idle ≡ false
    is_running zero h = absurd (omega arith)
    is_running (suc n) h = refl

    no_errors : (n : ℕ) → (status_at n).error ≡ false
    no_errors zero = refl
    no_errors (suc n) = refl

abbrev quiet : Line
quiet = record { left = 4; fifo = []; coming = []; lag = 0 }

read_reg8_succeeds_example :
    ((read_reg8 line_lib sensor_bus quiet 104 117 3).2 ≡ true)
    × ((read_reg8 line_lib sensor_bus quiet 104 117 3).1 ≡ answered)
read_reg8_succeeds_example =
    read_reg8_succeeds line_lib sensor_bus line 104 117 answered line-IsAnswering quiet refl
      (omega arith) (omega arith) (omega arith) (omega arith)
