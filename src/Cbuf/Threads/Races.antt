-- ===== src/Cbuf/Threads/Races.antt =====
-- What the second look at the pointers makes of a call when the other thread has moved in between.
use mathlib.Core.Path.{subst}
use demo_testbench.Base.{
  ℕ, ◌-◌, ◌<◌, ◌==◌, ltb, if◌then◌else◌, ◌||◌, ◌&&◌, List, ◌∷◌, length, true, false,
}
use demo_testbench.Base.{sub_size, done, ◌≡◌, refl, ap, ◌∙◌, arith}
use demo_testbench.Cbuf.{masked_level}
use demo_testbench.Cbuf.Valid.{masked_level_lem}
use demo_testbench.Cbuf.Contents.{contents, length-contents}
use demo_testbench.Cbuf.Threads.{
  Threads, w_idle, w_measure, w_copy, r_idle, r_measure, r_copy, write_turn, read_turn, turn,
}
use demo_testbench.Cbuf.Threads.Laws.{level, WriterFits, IsThreads}

-- A reader at its second look is refused exactly if the ring holds fewer bytes than it asks for, or
-- if the writer has filled the ring since the first look, whatever the reader asks for above 0;
-- otherwise it goes on to copy.
pub r_measure_lem :
    (t : Threads) (n : ℕ)
    → IsThreads t
    → t.reader ≡ r_measure n
    → let held = length (contents t.ring) in
      turn t false
      ≡ done (
          if ltb held n || ((held == t.ring.size) && ltb 0 n)
          then record t { reader = r_idle; refused_reads = n ∷ t.refused_reads }
          else record t { reader = r_copy n })
unfolding turn
r_measure_lem t n i at =
    let same : ltb (masked_level t.ring) n
        ≡ ltb (length (contents t.ring)) n
          || ((length (contents t.ring) == t.ring.size) && ltb 0 n) =
      ground (arith, masked_level_lem i.valid, length-contents t.ring) in
    ap (λ r. read_turn t r) at ∙ rw same refl

-- A writer at its second look is refused exactly if the ring has less room than it needs.
pub w_measure_lem :
    (t : Threads) (src : List ℕ)
    → IsThreads t
    → t.writer ≡ w_measure src
    → turn t true
      ≡ done (
          if ltb (t.ring.size - length (contents t.ring)) (length src)
          then record t { writer = w_idle; refused_writes = src ∷ t.refused_writes }
          else record t { writer = w_copy src })
unfolding turn
w_measure_lem t src i at =
    let free : level t.ring < t.ring.size = subst (λ w. WriterFits t.ring w) at i.writer_fits in
    let same : sub_size t.ring.size (masked_level t.ring) ≡ t.ring.size - length (contents t.ring) =
      ground (arith, masked_level_lem i.valid, length-contents t.ring, i.valid.small) in
    ap (λ w. write_turn t w) at ∙ rw same refl
