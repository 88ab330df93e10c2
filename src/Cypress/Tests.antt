-- ===== src/Cypress/Tests.antt =====
-- The Cypress FX2 backend with a write buffer of eight bytes, of which five wait, and an empty read
-- buffer of a kilobyte.
use demo_testbench.Base.{
  ℕ, ◌-◌, ◌*◌, ◌/◌, ◌%◌, ◌≤◌, min, List, [], ◌∷◌, ◌++◌, length, take, drop, tabulate,
  length-tabulate,
}
use demo_testbench.Base.{Option, none, some, done, hang, ◌≡◌, refl, arith, true}
use demo_testbench.Cbuf.{Cbuf}
use demo_testbench.Cbuf.Valid.{IsValid}
use demo_testbench.Cbuf.Contents.{contents}
use demo_testbench.Cypress.{
  Cypress, moved, transfer_len, usb_write_pass, usb_read_pass, gb_cypressfx2_write_b,
}
use demo_testbench.Cypress.Client.{gb_cypressfx2_write_b-hang}
use demo_testbench.Cypress.Threads.{usb_write_pass-moved, usb_read_pass-moved}

abbrev waiting : Cbuf
waiting = record {
  wr_ptr = 10;
  rd_ptr = 5;
  size = 8;
  bytes = 4 ∷ 5 ∷ 0 ∷ 0 ∷ 0 ∷ 1 ∷ 2 ∷ 3 ∷ [];
  hint_max_read_size = 0;
  read_data_tmp_size = 0;
  read_data_tmp = none;
  hint_max_write_size = 0;
  write_data_tmp_size = 0;
  write_data_tmp = none;
}

abbrev roomy : Cbuf
roomy = record waiting { wr_ptr = 1000; rd_ptr = 1000; size = 1024; bytes = tabulate 1024 (λ i. 0) }

waiting-IsValid : IsValid waiting
waiting-IsValid = record {
  log_size = 3;
  is_power = refl;
  small = omega arith;
  allocated = refl;
  wr_in = omega arith;
  rd_in = omega arith;
  level_in = omega arith;
  read_tmp = refl;
  write_tmp = refl;
}

roomy-IsValid : IsValid roomy
roomy-IsValid = record {
  log_size = 10;
  is_power = refl;
  small = omega arith;
  allocated = length-tabulate {A = ℕ} 1024 (λ i. 0);
  wr_in = omega arith;
  rd_in = omega arith;
  level_in = omega arith;
  read_tmp = refl;
  write_tmp = refl;
}

abbrev backend : Cypress
backend = record {
  connected = true;
  write_buf = waiting;
  read_buf = roomy;
  write_notification_sem = 0;
  read_notification_sem = 0;
}

abbrev moving : Option (List ℕ) → ℕ → Option (List ℕ)
moving tmp n = some (tabulate n (λ i. 0))

moving_gives :
    (tmp : Option (List ℕ)) (n : ℕ)
    → (block : List ℕ) × (moving tmp n ≡ some block) × (length block ≡ n)
moving_gives tmp n = (tabulate n (λ i. 0), refl, length-tabulate {A = ℕ} n (λ i. 0))

-- Of five bytes, four are whole words; the transfer moves three of them.
usb_write_pass-moved_example :
    let n = transfer_len backend (length (contents waiting)) in
    (b : Cbuf) × (usb_write_pass moving backend (moved 3)
      ≡ done (record backend { write_buf = b }, take (min 3 n) (contents waiting)))
    × (contents b ≡ drop (min 3 n) (contents waiting))
    × IsValid b
    × (b.size ≡ 8)
    × (n % 2 ≡ 0)
    × (n ≤ 32768)
usb_write_pass-moved_example =
    usb_write_pass-moved moving moving_gives backend 3 waiting-IsValid (omega arith) (omega arith)

-- The device offers three bytes, and two are moved.
usb_read_pass-moved_example :
    let n = min 32768 ((1024 - length (contents roomy)) / 512 * 512) in
    (b : Cbuf) × (usb_read_pass moving backend (5 ∷ 6 ∷ 7 ∷ []) (moved 2)
      ≡ done (record backend { read_buf = b }))
    × (contents b ≡ contents roomy ++ take (min 2 n) (5 ∷ 6 ∷ 7 ∷ []))
    × IsValid b
    × (b.size ≡ 1024)
usb_read_pass-moved_example =
    usb_read_pass-moved moving moving_gives backend (5 ∷ 6 ∷ 7 ∷ []) 2 roomy-IsValid (omega arith)
      (omega arith)

gb_cypressfx2_write_b-hang_example :
    gb_cypressfx2_write_b backend (4 ∷ 4 ∷ []) 1 3 (1 ∷ 2 ∷ 3 ∷ []) ≡ hang
gb_cypressfx2_write_b-hang_example =
    gb_cypressfx2_write_b-hang backend (4 ∷ 4 ∷ []) 1 3 (1 ∷ 2 ∷ 3 ∷ []) (omega arith) (omega arith)
      (omega arith)
