-- ===== src/Platform/Spi/Tests.antt =====
-- A transfer at a concrete bus.
use nuedc_control_car_freert.Prelude.{
  ℕ, ◌≡◌, refl, Bool, true, false, List, [], ◌∷◌, ◌++◌, AllSome, some, is_empty,
}
use nuedc_control_car_freert.Platform.Spi.{
  SpiBus, SpiLib, wait_while, deselect, drain_rx, transfer8, transfer_all, exchange,
  selected_exchange, read_reg8,
}
use nuedc_control_car_freert.Platform.Spi.Transfer.{IsWired, IsEnd, transfer_ends}

-- a chip that answers every byte with 71; a byte is left in the receive FIFO
record Chip : Type 0 where
  cs : Bool
  sent : List ℕ
  fifo : List ℕ

abbrev first : List ℕ → ℕ
first [] = 0
first (b ∷ bs) = b

abbrev others : List ℕ → List ℕ
others [] = []
others (b ∷ bs) = bs

abbrev chip_lib : SpiLib Chip
chip_lib = record {
  is_busy = λ v. (v, false);
  tx_full = λ v. (v, false);
  rx_empty = λ v. (v, is_empty v.fifo);
  transmit = λ v byte. record v { sent = v.sent ++ (byte ∷ []); fifo = v.fifo ++ (71 ∷ []) };
  receive = λ v. (record v { fifo = others v.fifo }, first v.fifo);
  set_cs = λ v level. record v { cs = level };
}

chip-IsWired : IsWired chip_lib (λ v. v.cs) (λ v. v.sent)
chip-IsWired = record {
  set_level = λ v level. refl;
  look_keeps = λ v. refl;
  busy = λ v. refl;
  full = λ v. refl;
  empty = λ v. refl;
  receive = λ v. refl;
  select = λ v level. refl;
  transmit = λ v byte. refl;
}

abbrev imu_bus : SpiBus
imu_bus = record { inst = 1; cs_port = 2; cs_pin = 4; wait_limit = 0 }

abbrev idle_chip : Chip
idle_chip = record { cs = true; sent = []; fifo = 9 ∷ [] }

-- the byte that was left over is not taken for an answer
two_read :
    read_reg8 chip_lib imu_bus 3 idle_chip 114 (0 ∷ 0 ∷ [])
    ≡ some (record { cs = true; sent = 242 ∷ 0 ∷ 0 ∷ []; fifo = [] }, 71 ∷ 71 ∷ [], true)
unfolding read_reg8 selected_exchange exchange transfer_all transfer8 drain_rx deselect wait_while
two_read = refl

transfer_ends_example :
    AllSome
      (IsEnd chip_lib imu_bus (λ v. v.cs) (λ v. v.sent) chip-IsWired idle_chip 242 (0 ∷ 0 ∷ []))
      (selected_exchange chip_lib imu_bus 3 idle_chip 242 (0 ∷ 0 ∷ []))
transfer_ends_example =
    transfer_ends chip_lib imu_bus (λ v. v.cs) (λ v. v.sent) chip-IsWired 3 idle_chip 242
      (0 ∷ 0 ∷ []) refl
