-- ===== src/Cbuf/Threads/Steps.antt =====
-- Every step of either thread keeps what the two rely on.
use mathlib.Core.List.{append_assoc, append-nil}
use demo_testbench.Base.{
  ℕ, ◌^◌, ◌+◌, ◌≤◌, ◌<◌, ◌==◌, ltb, List, [], ◌∷◌, ◌++◌, length, take, drop, Bool, true, false,
}
use demo_testbench.Base.{sub_size, done, ◌≡◌, refl, sym, ap, ap₂, ◌∙◌, arith, Bool-cases, inl, inr}
use demo_testbench.Base.{take-append-drop, take_left, drop_left}
use demo_testbench.Cbuf.{Cbuf, is_full, masked_level, ptr_add}
use demo_testbench.Cbuf.Threads.{
  Threads, Writer, Reader, w_idle, w_test, w_measure, w_copy, w_publish, write_if_free,
  read_if_filled, next_write, next_read, r_idle, r_test, r_measure, r_copy, r_publish, write_turn,
  read_turn, turn, run_turns,
}
use demo_testbench.Cbuf.Valid.{IsValid, is_full-ahead, masked_level_lem}
use demo_testbench.Cbuf.Contents.{contents, length-contents, ahead-ptr_add_wr, ahead-ptr_add_rd}
use demo_testbench.Cbuf.Fifo.{consumed}
use demo_testbench.Cbuf.Threads.Laws.{
  level, advance, consume, advance-IsValid, copied_in, copied_out, WriterFits, ReaderFits,
  IsThreads,
}

-- The reader counts on the same bytes when others come behind them.
reader_kept :
    (b b' : Cbuf) (more : List ℕ) (r : Reader)
    → contents b' ≡ contents b ++ more
    → level b ≤ level b'
    → ReaderFits b r
    → ReaderFits b' r
reader_kept b b' more r_idle e h f = tt
reader_kept b b' more (r_test n) e h f = tt
reader_kept b b' more (r_measure n) e h f = tt
reader_kept b b' more (r_copy n) e h f = omega arith
reader_kept b b' more (r_publish n out) e h f = (
  omega (arith, f.0),
  f.1
      ∙ sym (
          ap (λ l. take n l) e
          ∙ take_left n (contents b) more (omega (arith, f.0, length-contents b))),
)

consume-advance : (b : Cbuf) (n k : ℕ) → advance (consume b n) k ≡ consume (advance b k) n
unfolding ptr_add
consume-advance b n k = refl

-- The writer counts on no less room when bytes are taken.
writer_kept :
    (b : Cbuf) (n : ℕ) (w : Writer)
    → IsValid b
    → n ≤ level b
    → WriterFits b w
    → WriterFits (consume b n) w
writer_kept b n w_idle v h f = tt
writer_kept b n (w_test src) v h f = tt
writer_kept b n (w_measure src) v h f = omega (arith, ahead-ptr_add_rd v n h)
writer_kept b n (w_copy src) v h f = omega (arith, ahead-ptr_add_rd v n h)
writer_kept b n (w_publish src) v h f =
    let v' = advance-IsValid b (length src) v f.0 in
    let more = ahead-ptr_add_wr v (length src) f.0 in
    (
      omega (arith, f.0, ahead-ptr_add_rd v n h),
      ap (λ x. contents x) (consume-advance b n (length src))
          ∙ ((consumed v' n (omega (arith, more))).1
              ∙ (ap (λ l. drop n l) f.1
                  ∙ (drop_left n (contents b) src (omega (arith, length-contents b))
                      ∙ ap (λ l. l ++ src) (sym (consumed v n h).1)))),
    )

-- A write that has found `free` bytes of room, of which there are at least as many.
write_if_free-IsThreads :
    (t : Threads) (src : List ℕ) (free : ℕ)
    → IsValid t.ring
    → t.sent ≡ t.got ++ contents t.ring
    → ReaderFits t.ring t.reader
    → free + level t.ring ≤ t.ring.size
    → (t' : Threads) × (write_if_free t src free ≡ t') × IsThreads t' × (t'.ring.size ≡ t.ring.size)
write_if_free-IsThreads t src free v e r room = elim (Bool-cases (ltb free (length src))) [
  | inl small ↦
      rw small (_, refl, record { valid = v; fifo = e; writer_fits = tt; reader_fits = r }, refl)
  | inr fits ↦
      let few : level t.ring + length src ≤ t.ring.size = ground (arith, fits) in
      rw fits (_, refl, record { valid = v; fifo = e; writer_fits = few; reader_fits = r }, refl)
]

write_turn-IsThreads :
    (t : Threads) (w : Writer)
    → IsValid t.ring
    → t.sent ≡ t.got ++ contents t.ring
    → WriterFits t.ring w
    → ReaderFits t.ring t.reader
    → (t' : Threads) × (write_turn t w ≡ done t') × IsThreads t' × (t'.ring.size ≡ t.ring.size)
write_turn-IsThreads t w_idle v e f r = calls t.writes
  where
    calls :
        (l : List (List ℕ))
        → (t' : Threads) × (done (next_write t l) ≡ done t')
          × IsThreads t'
          × (t'.ring.size ≡ t.ring.size)
    calls [] = (_, refl, record { valid = v; fifo = e; writer_fits = tt; reader_fits = r }, refl)
    calls (x ∷ xs) =
        (_, refl, record { valid = v; fifo = e; writer_fits = tt; reader_fits = r }, refl)
write_turn-IsThreads t (w_test src) v e f r = elim (Bool-cases (is_full t.ring)) [
  | inl full ↦
      let (t', tries, i, same) =
        write_if_free-IsThreads t src (sub_size t.ring.size t.ring.size) v e r
          (omega (arith, v.level_in, v.small)) in
      rw full (t', ap (λ x. done x) tries, i, same)
  | inr free ↦
      let room : level t.ring < t.ring.size =
        ground (arith, sym (is_full-ahead v) ∙ free, v.level_in) in
      rw free (_, refl, record { valid = v; fifo = e; writer_fits = room; reader_fits = r }, refl)
]
write_turn-IsThreads t (w_measure src) v e f r =
    let free = sub_size t.ring.size (masked_level t.ring) in
    let (t', tries, i, same) =
      write_if_free-IsThreads t src free v e r
        (ground (arith, masked_level_lem v, v.level_in, v.small)) in
    (t', ap (λ x. done x) tries, i, same)
write_turn-IsThreads t (w_copy src) v e f r =
    let (out, runs, v', same, all) = copied_in t.ring src v f in
    rw runs (
      _,
      refl,
      record {
        valid = v';
        fifo = e ∙ ap (λ l. t.got ++ l) (sym same);
        writer_fits = (f, all ∙ ap (λ l. l ++ src) (sym same));
        reader_fits =
            reader_kept t.ring (record (t.ring) { bytes = out }) [] t.reader
              (same ∙ sym (append-nil (contents t.ring))) (omega arith) r;
      },
      refl,
    )
write_turn-IsThreads t (w_publish src) v e f r =
    let level' = ahead-ptr_add_wr v (length src) f.0 in
    (
      _,
      refl,
      record {
        valid = advance-IsValid t.ring (length src) v f.0;
        fifo =
            ap (λ l. l ++ src) e
            ∙ (append_assoc t.got (contents t.ring) src ∙ ap (λ l. t.got ++ l) (sym f.1));
        writer_fits = tt;
        reader_fits =
            reader_kept t.ring (advance t.ring (length src)) src t.reader f.1
              (omega (arith, level')) r;
      },
      refl,
    )

-- A read that has found `filled` bytes, of which there are at least as many.
read_if_filled-IsThreads :
    (t : Threads) (n filled : ℕ)
    → IsValid t.ring
    → t.sent ≡ t.got ++ contents t.ring
    → WriterFits t.ring t.writer
    → filled ≤ level t.ring
    → (t' : Threads) × (read_if_filled t n filled ≡ t')
      × IsThreads t'
      × (t'.ring.size ≡ t.ring.size)
read_if_filled-IsThreads t n filled v e w there = elim (Bool-cases (ltb filled n)) [
  | inl short ↦
      rw short (_, refl, record { valid = v; fifo = e; writer_fits = w; reader_fits = tt }, refl)
  | inr enough ↦
      let few : n ≤ level t.ring = ground (arith, enough) in
      rw enough (_, refl, record { valid = v; fifo = e; writer_fits = w; reader_fits = few }, refl)
]

read_turn-IsThreads :
    (t : Threads) (r : Reader)
    → t.ring.size ≤ 2 ^ 31
    → IsValid t.ring
    → t.sent ≡ t.got ++ contents t.ring
    → WriterFits t.ring t.writer
    → ReaderFits t.ring r
    → (t' : Threads) × (read_turn t r ≡ done t') × IsThreads t' × (t'.ring.size ≡ t.ring.size)
read_turn-IsThreads t r_idle small v e w f = calls t.reads
  where
    calls :
        (l : List ℕ)
        → (t' : Threads) × (done (next_read t l) ≡ done t')
          × IsThreads t'
          × (t'.ring.size ≡ t.ring.size)
    calls [] = (_, refl, record { valid = v; fifo = e; writer_fits = w; reader_fits = tt }, refl)
    calls (x ∷ xs) = elim (Bool-cases (x == 0)) [
      | inl none ↦
          rw none (_, refl, record { valid = v; fifo = e; writer_fits = w; reader_fits = tt }, refl)
      | inr some ↦
          rw some (_, refl, record { valid = v; fifo = e; writer_fits = w; reader_fits = tt }, refl)
    ]
read_turn-IsThreads t (r_test n) small v e w f = elim (Bool-cases (is_full t.ring)) [
  | inl full ↦
      let all : t.ring.size ≤ level t.ring = ground (arith, sym (is_full-ahead v) ∙ full) in
      let (t', tries, i, same) = read_if_filled-IsThreads t n t.ring.size v e w all in
      rw full (t', ap (λ x. done x) tries, i, same)
  | inr free ↦
      rw free (_, refl, record { valid = v; fifo = e; writer_fits = w; reader_fits = tt }, refl)
]
read_turn-IsThreads t (r_measure n) small v e w f =
    let (t', tries, i, same) =
      read_if_filled-IsThreads t n (masked_level t.ring) v e w
        (ground (arith, masked_level_lem v)) in
    (t', ap (λ x. done x) tries, i, same)
read_turn-IsThreads t (r_copy n) small v e w f =
    rw (copied_out t.ring n v small f)
      (_, refl, record { valid = v; fifo = e; writer_fits = w; reader_fits = (f, refl) }, refl)
read_turn-IsThreads t (r_publish n out) small v e w f =
    let (v', rest) = consumed v n f.0 in
    (
      _,
      refl,
      record {
        valid = v';
        fifo =
            e
            ∙ (ap (λ l. t.got ++ l) (sym (take-append-drop n (contents t.ring)))
                ∙ (sym (append_assoc t.got (take n (contents t.ring)) (drop n (contents t.ring)))
                    ∙ ap₂ (λ a c. (t.got ++ a) ++ c) (sym f.1) (sym rest)));
        writer_fits = writer_kept t.ring n t.writer v f.0 w;
        reader_fits = tt;
      },
      refl,
    )

pub turn-IsThreads :
    (t : Threads) (who : Bool)
    → t.ring.size ≤ 2 ^ 31
    → IsThreads t
    → (t' : Threads) × (turn t who ≡ done t') × IsThreads t' × (t'.ring.size ≡ t.ring.size)
unfolding turn
turn-IsThreads t true small i =
    write_turn-IsThreads t t.writer i.valid i.fifo i.writer_fits i.reader_fits
turn-IsThreads t false small i =
    read_turn-IsThreads t t.reader small i.valid i.fifo i.writer_fits i.reader_fits

-- On a valid ring of at most 2^31 bytes that holds, in order, what was sent and not yet
-- received, from threads that are right about the room and the bytes they have found, and
-- however the steps of the writing and the reading thread interleave: no copy leaves an object,
-- and all of this stays so.
pub run_turns-IsThreads :
    (turns : List Bool) (t : Threads)
    → t.ring.size ≤ 2 ^ 31
    → IsThreads t
    → (t' : Threads) × (run_turns t turns ≡ done t') × IsThreads t'
unfolding run_turns
run_turns-IsThreads [] t small i = (t, refl, i)
run_turns-IsThreads (who ∷ rest) t small i =
    let (t1, steps, i1, same) = turn-IsThreads t who small i in
    let (t2, runs, i2) = run_turns-IsThreads rest t1 (omega (arith, same, small)) i1 in
    (t2, rw steps runs, i2)
