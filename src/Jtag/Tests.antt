-- ===== src/Jtag/Tests.antt =====
-- The JTAG backend with words of two bytes and rings of eight bytes; four bytes wait to be written.
use demo_testbench.Base.{ℕ, ◌+◌, ◌*◌, ◌^◌, ◌≤◌}
use demo_testbench.Base.{
  List, [], ◌∷◌, length, take, drop, tabulate, length-tabulate, Option, none, some,
}
use demo_testbench.Base.{done, ok, ◌≡◌, refl, sym, arith}
use demo_testbench.Cbuf.{Cbuf, fill_level, free_level}
use demo_testbench.Cbuf.Valid.{IsValid}
use demo_testbench.Jtag.{Jtag, build_jtag_req}
use demo_testbench.Jtag.Words.{copy_to_word, copy_from_word}
use demo_testbench.Jtag.Words.Laws.{kept, copy_from_word-copy_to_word}
use demo_testbench.Jtag.Request.{Requested, build_jtag_req-Requested}
use demo_testbench.Jtag.Response.{Exchanged}
use demo_testbench.Jtag.Thread.{thread_step}
use demo_testbench.Jtag.Thread.Pass.{Answers, thread_step-Exchanged}

abbrev pub empty_ring : Cbuf
empty_ring = record {
  wr_ptr = 5;
  rd_ptr = 5;
  size = 8;
  bytes = tabulate 8 (λ i. 0);
  hint_max_read_size = 0;
  read_data_tmp_size = 0;
  read_data_tmp = none;
  hint_max_write_size = 0;
  write_data_tmp_size = 0;
  write_data_tmp = none;
}

-- The bytes 1 to 4, from the sixth cell on.
abbrev pub waiting : Cbuf
waiting = record empty_ring { wr_ptr = 9; bytes = 4 ∷ 0 ∷ 0 ∷ 0 ∷ 0 ∷ 1 ∷ 2 ∷ 3 ∷ [] }

pub empty_ring-IsValid : IsValid empty_ring
empty_ring-IsValid = record {
  log_size = 3;
  is_power = refl;
  small = omega arith;
  allocated = refl;
  wr_in = omega arith;
  rd_in = omega arith;
  level_in = omega arith;
  read_tmp = refl;
  write_tmp = refl;
}

pub waiting-IsValid : IsValid waiting
waiting-IsValid = record {
  log_size = 3;
  is_power = refl;
  small = omega arith;
  allocated = refl;
  wr_in = omega arith;
  rd_in = omega arith;
  level_in = omega arith;
  read_tmp = refl;
  write_tmp = refl;
}

abbrev pub backend : Jtag
backend = record {
  write_buf = waiting;
  read_buf = empty_ring;
  target_word_width = 2;
  target_buffer_size = 16;
}

abbrev moving : Option (List ℕ) → ℕ → Option (List ℕ)
moving tmp n = some (tabulate n (λ i. 0))

moving_gives :
    (tmp : Option (List ℕ)) (n : ℕ)
    → (block : List ℕ) × (moving tmp n ≡ some block) × (length block ≡ n)
moving_gives tmp n = (tabulate n (λ i. 0), refl, length-tabulate {A = ℕ} n (λ i. 0))

copy_from_word-copy_to_word_example :
    (out : List ℕ) × (copy_to_word 2 0x1234 (7 ∷ 7 ∷ 7 ∷ 7 ∷ 7 ∷ []) 1 ≡ done out)
    × (copy_from_word 2 out 1 ≡ done (kept 2 0x1234))
    × (take 1 out ≡ take 1 (7 ∷ 7 ∷ 7 ∷ 7 ∷ 7 ∷ []))
    × (drop (1 + 2) out ≡ drop (1 + 2) (7 ∷ 7 ∷ 7 ∷ 7 ∷ 7 ∷ []))
    × (length out ≡ 5)
copy_from_word-copy_to_word_example =
    copy_from_word-copy_to_word 2 0x1234 (7 ∷ 7 ∷ 7 ∷ 7 ∷ 7 ∷ []) 1 (omega arith) (omega arith)

build_jtag_req-Requested_example :
    (req : List ℕ) × (b : Cbuf) × (build_jtag_req moving backend 2 3 30008
      ≡ done (ok, req, record backend { write_buf = b }))
    × Requested backend 2 3 req b
build_jtag_req-Requested_example =
    build_jtag_req-Requested moving moving_gives backend 2 3 30008 (omega arith) waiting-IsValid
      (omega arith) (omega arith) (omega arith) (omega arith) (omega arith)

-- A target that takes one word and sends two.
abbrev target : List ℕ → Option (List ℕ)
target req = some (9 ∷ 9 ∷ 9 ∷ 9 ∷ 21 ∷ 22 ∷ 23 ∷ 24 ∷ 9 ∷ 9 ∷ 9 ∷ 9 ∷ 1 ∷ 0 ∷ 2 ∷ 0 ∷ [])

target-Answers :
    (req : List ℕ) (b : Cbuf)
    → Requested backend 2 4 req b
    → (resp : List ℕ) × (target req ≡ some resp) × Answers 2 1 2 req resp
unfolding copy_from_word fill_level free_level
target-Answers req b r =
    (_, refl, record { as_long = sym r.size; says_acked = refl; says_received = refl })

thread_step-Exchanged_example :
    (req : List ℕ) × (b : Cbuf) × (resp : List ℕ) × (next : ℕ) × (size' : ℕ) × (u' : Jtag)
    × Requested backend 2 4 req b
    × (target req ≡ some resp)
    × (thread_step moving target (2 ^ 20) backend 16 100 8 ≡ done (some (next, u'), size'))
    × Exchanged backend u' (1 * 2) (take (2 * 2) (drop (2 * 2) resp))
    × (next ≤ 15000)
unfolding fill_level free_level
thread_step-Exchanged_example =
    thread_step-Exchanged moving moving_gives target backend (2 ^ 20) 16 100 8 1 2 (omega arith)
      (omega arith) waiting-IsValid empty_ring-IsValid (omega arith) (omega arith) (omega arith)
      (omega arith) (omega arith) (omega arith) target-Answers (omega arith) (omega arith)
