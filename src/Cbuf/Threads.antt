-- ===== src/Cbuf/Threads.antt =====
-- A ring between two threads, one on the write side and one on the read side, whose steps interleave
-- in any order. `cbuf_write` and `cbuf_read` look at the other side's pointer twice, in
-- `cbuf_is_full` and after it, then copy, and then move their own pointer. The loads and stores are
-- taken in the order of the program, and the copy as one step.
pub mod Laws
pub mod Steps
pub mod Races
mod Tests
use demo_testbench.Base.{
  ℕ, ◌==◌, ltb, if◌then◌else◌, List, [], ◌∷◌, ◌++◌, length, tabulate, Bool, true, false,
}
use demo_testbench.Base.{sub_size, Outcome, done, ◌>>=◌}
use demo_testbench.Cbuf.{Cbuf, is_full, masked_level, write_bytes, read_bytes, ptr_add}

-- Where the writing thread stands in `cbuf_write`, with the data of the call.
pub data Writer : Type 0 where
  w_idle : Writer
  w_test : List ℕ → Writer  -- before `cbuf_is_full`
  w_measure : List ℕ → Writer  -- behind it, before the pointers are read again
  w_copy : List ℕ → Writer
  w_publish : List ℕ → Writer  -- before `wr_ptr` moves

-- Where the reading thread stands in `cbuf_read`, with the number of bytes, and those read.
pub data Reader : Type 0 where
  r_idle : Reader
  r_test : ℕ → Reader
  r_measure : ℕ → Reader
  r_copy : ℕ → Reader
  r_publish : ℕ → List ℕ → Reader

-- The ring, the threads, the calls that they have still to make, and what has happened: the bytes
-- written and read so far, and the reads and writes that were refused.
pub record Threads : Type 0 where
  pub ring : Cbuf
  pub writer : Writer
  pub reader : Reader
  pub writes : List (List ℕ)
  pub reads : List ℕ
  pub sent : List ℕ
  pub got : List ℕ
  pub refused_writes : List (List ℕ)
  pub refused_reads : List ℕ

-- A write with `free` bytes to go to.
abbrev pub write_if_free : Threads → List ℕ → ℕ → Threads
write_if_free t src free =
    if ltb free (length src)
    then record t { writer = w_idle; refused_writes = src ∷ t.refused_writes }
    else record t { writer = w_copy src }

abbrev pub read_if_filled : Threads → ℕ → ℕ → Threads
read_if_filled t n level =
    if ltb level n
    then record t { reader = r_idle; refused_reads = n ∷ t.refused_reads }
    else record t { reader = r_copy n }

-- The next call of a thread; a read of 0 bytes returns at once.
abbrev pub next_write : Threads → List (List ℕ) → Threads
next_write t [] = record t { writer = w_idle }
next_write t (src ∷ calls) = record t { writer = w_test src; writes = calls }

abbrev pub next_read : Threads → List ℕ → Threads
next_read t [] = record t { reader = r_idle }
next_read t (n ∷ calls) =
    if n == 0
    then record t { reader = r_idle; reads = calls }
    else record t { reader = r_test n; reads = calls }

-- A step of the writing thread.
abbrev pub write_turn : Threads → Writer → Outcome Threads
write_turn t w_idle = done (next_write t t.writes)
write_turn t (w_test src) = done (
    if is_full t.ring
    then write_if_free t src (sub_size t.ring.size t.ring.size)
    else record t { writer = w_measure src })
write_turn t (w_measure src) =
    done (write_if_free t src (sub_size t.ring.size (masked_level t.ring)))
write_turn t (w_copy src) = write_bytes t.ring src (length src) >>= λ out.
    done (record t { ring = record (t.ring) { bytes = out }; writer = w_publish src })
write_turn t (w_publish src) = done (record t {
  ring = record (t.ring) { wr_ptr = ptr_add t.ring t.ring.wr_ptr (length src) };
  writer = w_idle;
  sent = t.sent ++ src;
})

-- A step of the reading thread, which reads into a fresh array.
abbrev pub read_turn : Threads → Reader → Outcome Threads
read_turn t r_idle = done (next_read t t.reads)
read_turn t (r_test n) =
    done
      (if is_full t.ring then read_if_filled t n t.ring.size else record t { reader = r_measure n })
read_turn t (r_measure n) = done (read_if_filled t n (masked_level t.ring))
read_turn t (r_copy n) = read_bytes t.ring (tabulate n (λ i. 0)) n >>= λ out.
    done (record t { reader = r_publish n out })
read_turn t (r_publish n out) = done (record t {
  ring = record (t.ring) { rd_ptr = ptr_add t.ring t.ring.rd_ptr n };
  reader = r_idle;
  got = t.got ++ out;
})

-- `true` lets the writing thread make a step, `false` the reading one.
unfoldable pub turn : Threads → Bool → Outcome Threads
turn t true = write_turn t t.writer
turn t false = read_turn t t.reader

unfoldable pub run_turns : Threads → List Bool → Outcome Threads
run_turns t [] = done t
run_turns t (who ∷ rest) = turn t who >>= λ t'. run_turns t' rest
