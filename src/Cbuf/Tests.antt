-- ===== src/Cbuf/Tests.antt =====
-- The circular buffer on a ring of 4 bytes whose contents, 7 8 9, go round the end of the array.
use demo_testbench.Base.{ℕ, Option, none, some, List, [], ◌∷◌, length}
use demo_testbench.Base.{tabulate, length-tabulate, done, ok, einval, enomem, true}
use demo_testbench.Base.{◌≡◌, refl, arith}
use demo_testbench.Cbuf.{Cbuf, init}
use demo_testbench.Cbuf.Valid.{IsValid, fill_level_lem, free_level_lem}
use demo_testbench.Cbuf.Contents.{contents}
use demo_testbench.Cbuf.Fifo.{put, get, init-IsValid}
use demo_testbench.Cbuf.Script.{
  Call, write_call, read_call, discard_call, run, run_queue, run_refines,
}
use demo_testbench.Cbuf.Api.{Ptr, null, reserve, store, commit, peek}
use demo_testbench.Cbuf.Api.Reserve.{reserve_after_failure}
use demo_testbench.Cbuf.Api.Commit.{reserve-store-commit}
use demo_testbench.Cbuf.Api.Peek.{IsPeeked, peek-IsPeeked}

abbrev wrapped : Cbuf
wrapped = record {
  wr_ptr = 5;
  rd_ptr = 2;
  size = 4;
  bytes = 9 ∷ 0 ∷ 7 ∷ 8 ∷ [];
  hint_max_read_size = 0;
  read_data_tmp_size = 0;
  read_data_tmp = none;
  hint_max_write_size = 0;
  write_data_tmp_size = 0;
  write_data_tmp = none;
}

wrapped-IsValid : IsValid wrapped
wrapped-IsValid = record {
  log_size = 2;
  is_power = refl;
  small = omega arith;
  allocated = refl;
  wr_in = omega arith;
  rd_in = omega arith;
  level_in = omega arith;
  read_tmp = refl;
  write_tmp = refl;
}

-- One byte, 9, in the third cell: a write of two goes round the end.
abbrev pub near_end : Cbuf
near_end = record wrapped { wr_ptr = 3; rd_ptr = 2; bytes = 0 ∷ 0 ∷ 9 ∷ 0 ∷ [] }

pub near_end-IsValid : IsValid near_end
near_end-IsValid = record {
  log_size = 2;
  is_power = refl;
  small = omega arith;
  allocated = refl;
  wr_in = omega arith;
  rd_in = omega arith;
  level_in = omega arith;
  read_tmp = refl;
  write_tmp = refl;
}

abbrev zeroed : ℕ → Option (List ℕ)
zeroed n = some (tabulate n (λ _. 0))

abbrev moving : Option (List ℕ) → ℕ → Option (List ℕ)
moving tmp n = zeroed n

abbrev out_of_memory : Option (List ℕ) → ℕ → Option (List ℕ)
out_of_memory tmp n = none

moving_gives :
    (tmp : Option (List ℕ)) (n : ℕ)
    → (block : List ℕ) × (moving tmp n ≡ some block) × (length block ≡ n)
moving_gives tmp n = (tabulate n (λ _. 0), refl, length-tabulate {A = ℕ} n (λ _. 0))

contents-wrapped : contents wrapped ≡ 7 ∷ 8 ∷ 9 ∷ []
contents-wrapped = refl

abbrev script : List Call
script =
    write_call (1 ∷ 2 ∷ [])
    ∷ read_call 2
    ∷ write_call (1 ∷ 2 ∷ [])
    ∷ discard_call 1
    ∷ read_call 3
    ∷ []

run-wrapped :
    run_queue 4 (7 ∷ 8 ∷ 9 ∷ []) script
    ≡ (einval, []) ∷ (ok, 7 ∷ 8 ∷ []) ∷ (ok, []) ∷ (ok, []) ∷ (einval, 0 ∷ 0 ∷ 0 ∷ []) ∷ []
unfolding run_queue put get
run-wrapped = refl

run_refines_example : run wrapped script ≡ done (run_queue 4 (7 ∷ 8 ∷ 9 ∷ []) script)
run_refines_example = run_refines script wrapped-IsValid (omega arith)

init-IsValid_example :
    (b : Cbuf) × (init zeroed true 8 ≡ done (ok, some b))
    × IsValid b
    × (contents b ≡ [])
    × (b.size ≡ 8)
init-IsValid_example = init-IsValid zeroed 3 (omega arith) refl refl

reserve-store-commit_example :
    (ptr : Ptr) × (b1 : Cbuf) × (b2 : Cbuf) × (b3 : Cbuf) × (reserve moving near_end 3
      ≡ done (ok, some ptr, b1))
    × (store b1 ptr (1 ∷ 2 ∷ []) ≡ done b2)
    × (commit b2 ptr 2 ≡ done (ok, b3))
    × (contents b3 ≡ 9 ∷ 1 ∷ 2 ∷ [])
    × IsValid b3
    × (b3.size ≡ 4)
reserve-store-commit_example =
    reserve-store-commit moving moving_gives 3 (1 ∷ 2 ∷ []) 2 near_end-IsValid (omega arith)
      (omega (arith, free_level_lem near_end-IsValid)) (omega arith) (omega arith)

peek-IsPeeked_example :
    (ptr : Ptr) × (b' : Cbuf) × (peek moving wrapped 3 ≡ done (ok, some ptr, b'))
    × IsPeeked wrapped ptr 3 b'
peek-IsPeeked_example =
    peek-IsPeeked moving moving_gives 3 wrapped-IsValid (omega arith) (omega arith)
      (omega (arith, fill_level_lem wrapped-IsValid))

reserve_after_failure_example :
    (b' : Cbuf) × (reserve out_of_memory near_end 2 ≡ done (enomem, none, b'))
    × (reserve moving b' 2 ≡ done (ok, some null, b'))
reserve_after_failure_example =
    reserve_after_failure out_of_memory moving 2 (λ _ _. refl) near_end-IsValid (omega arith)
      (omega (arith, free_level_lem near_end-IsValid)) (omega arith) (omega arith)
