-- ===== src/Cbuf/Threads/Tests.antt =====
-- Two threads on a ring of four bytes, whose contents go round the end of the array.
use demo_testbench.Base.{
  ◌==◌, ltb, if◌then◌else◌, ◌||◌, ◌&&◌, List, [], ◌∷◌, length, Bool, true, false,
}
use demo_testbench.Base.{done, ◌≡◌, refl, arith}
use demo_testbench.Cbuf.Tests.{near_end, near_end-IsValid}
use demo_testbench.Cbuf.Contents.{contents}
use demo_testbench.Cbuf.Threads.{Threads, w_idle, r_idle, r_measure, r_copy, turn, run_turns}
use demo_testbench.Cbuf.Threads.Laws.{IsThreads}
use demo_testbench.Cbuf.Threads.Steps.{run_turns-IsThreads}
use demo_testbench.Cbuf.Threads.Races.{r_measure_lem}
use demo_testbench.Cbuf.{Cbuf, is_full, write_bytes, memcpy, ptr_add}

-- The ring holds a 9, three more bytes are to be written, and one to be read.
abbrev about_to : Threads
about_to = record {
  ring = near_end;
  writer = w_idle;
  reader = r_idle;
  writes = (1 ∷ 2 ∷ 3 ∷ []) ∷ [];
  reads = 1 ∷ [];
  sent = 9 ∷ [];
  got = [];
  refused_writes = [];
  refused_reads = [];
}

about_to-IsThreads : IsThreads about_to
about_to-IsThreads = record {
  valid = near_end-IsValid;
  fifo = refl;
  writer_fits = tt;
  reader_fits = tt;
}

-- The reader looks for the first time, and the writer fills the ring.
abbrev schedule : List Bool
schedule = false ∷ false ∷ true ∷ true ∷ true ∷ true ∷ true ∷ []

run_turns-IsThreads_example :
    (t' : Threads) × (run_turns about_to schedule ≡ done t') × IsThreads t'
run_turns-IsThreads_example = run_turns-IsThreads schedule about_to (omega arith) about_to-IsThreads

abbrev full : Cbuf
full = record near_end { wr_ptr = 6; bytes = 2 ∷ 3 ∷ 9 ∷ 1 ∷ [] }

-- What the schedule comes to.
abbrev filled : Threads
filled = record about_to {
  ring = full;
  reader = r_measure 1;
  writes = [];
  reads = [];
  sent = 9 ∷ 1 ∷ 2 ∷ 3 ∷ [];
}

filled-reached : run_turns about_to schedule ≡ done filled
unfolding run_turns turn is_full write_bytes memcpy ptr_add
filled-reached = refl

filled-IsThreads : IsThreads filled
filled-IsThreads = record {
  valid = record {
    log_size = 2;
    is_power = refl;
    small = omega arith;
    allocated = refl;
    wr_in = omega arith;
    rd_in = omega arith;
    level_in = omega arith;
    read_tmp = refl;
    write_tmp = refl;
  };
  fifo = refl;
  writer_fits = tt;
  reader_fits = tt;
}

-- Its second look refuses the one byte, though the ring holds four.
r_measure_lem_example :
    turn filled false
    ≡ done (
        if ltb (length (contents full)) 1 || ((length (contents full) == 4) && ltb 0 1)
        then record filled { reader = r_idle; refused_reads = 1 ∷ [] }
        else record filled { reader = r_copy 1 })
r_measure_lem_example = r_measure_lem filled 1 filled-IsThreads refl
