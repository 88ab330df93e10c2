-- ===== src/Cbuf/Threads/Laws.antt =====
-- What each step of the two threads keeps.
use mathlib.Core.List.{append-nil}
use demo_testbench.Base.{ℕ, ◌^◌, ◌+◌, ◌≤◌, ◌<◌, List, [], ◌∷◌, ◌++◌, length, take, drop, tabulate}
use demo_testbench.Base.{done, ◌≡◌, refl, sym, ap, ◌∙◌, arith}
use demo_testbench.Base.{take_all, length-drop, length-tabulate}
use demo_testbench.Cbuf.{Cbuf, write_bytes, read_bytes, ptr_add}
use demo_testbench.Cbuf.Threads.{
  Threads, Writer, Reader, w_idle, w_test, w_measure, w_copy, w_publish, r_copy, r_publish,
}
use demo_testbench.Cbuf.Valid.{IsValid, wrap, ahead}
use demo_testbench.Cbuf.Copy.{write_bytes-IsWritten, read_bytes-IsTaken}
use demo_testbench.Cbuf.Contents.{
  contents, window, window-IsWritten, IsTaken-window, ahead-ptr_add_wr, wrap-rd_ptr-lt, wrap-wr_ptr,
}
use demo_testbench.Cbuf.Fifo.{advanced-IsValid}

abbrev pub level : Cbuf → ℕ
level b = ahead b.size b.wr_ptr b.rd_ptr

-- The ring after the write pointer has moved by `n`, and after the read pointer has.
abbrev pub advance : Cbuf → ℕ → Cbuf
advance b n = record b { wr_ptr = ptr_add b b.wr_ptr n }

abbrev pub consume : Cbuf → ℕ → Cbuf
consume b n = record b { rd_ptr = ptr_add b b.rd_ptr n }

pub advance-IsValid : (b : Cbuf) (n : ℕ) → IsValid b → level b + n ≤ b.size → IsValid (advance b n)
advance-IsValid b n v fits = advanced-IsValid v b.bytes n refl fits

rewritten-IsValid :
    (b : Cbuf) (out : List ℕ)
    → IsValid b
    → length out ≡ length b.bytes
    → IsValid (record b { bytes = out })
rewritten-IsValid b out v same = record {
  log_size = v.log_size;
  is_power = v.is_power;
  small = v.small;
  allocated = same ∙ v.allocated;
  wr_in = v.wr_in;
  rd_in = v.rd_in;
  level_in = v.level_in;
  read_tmp = v.read_tmp;
  write_tmp = v.write_tmp;
}

-- The copy of a write leaves what the ring holds, and puts the new bytes where the write pointer will
-- have passed them.
pub copied_in :
    (b : Cbuf) (src : List ℕ)
    → IsValid b
    → level b + length src ≤ b.size
    → (out : List ℕ) × (write_bytes b src (length src) ≡ done out)
      × IsValid (record b { bytes = out })
      × (contents (record b { bytes = out }) ≡ contents b)
      × (contents (advance (record b { bytes = out }) (length src)) ≡ contents b ++ src)
unfolding ptr_add
copied_in b src v fits =
    let n = length src in
    let (out, runs, w) = write_bytes-IsWritten src n v (omega arith) (omega arith) in
    let start = wrap b.size b.rd_ptr in
    let at = wrap-wr_ptr v in
    let w' = rw at at w in
    let none =
      window-IsWritten b.bytes src out b.size (wrap b.size b.rd_ptr) (level b) 0 n
        (wrap-rd_ptr-lt v) fits (omega arith) (omega arith) w' in
    let all =
      window-IsWritten b.bytes src out b.size (wrap b.size b.rd_ptr) (level b) n n
        (wrap-rd_ptr-lt v) fits (omega arith) (omega arith) w' in
    let same : level b + 0 ≡ level b = omega arith in
    (
      out,
      runs,
      rewritten-IsValid b out v w.same_length,
      ap (λ k. window out b.size start k) (sym same) ∙ (none ∙ append-nil (contents b)),
      ap (λ k. window out b.size start k) (ahead-ptr_add_wr v n fits).1
          ∙ (all ∙ ap (λ l. contents b ++ l) (take_all n src (omega arith))),
    )

empty : (xs : List ℕ) → length xs ≡ 0 → xs ≡ []
empty [] h = refl
empty (x ∷ xs) h = absurd (omega arith)

-- The copy of a read gives the oldest bytes.
pub copied_out :
    (b : Cbuf) (n : ℕ)
    → IsValid b
    → b.size ≤ 2 ^ 31
    → n ≤ level b
    → read_bytes b (tabulate n (λ i. 0)) n ≡ done (take n (contents b))
copied_out b n v small fits =
    let dst : List ℕ = tabulate n (λ i. 0) in
    let len : length dst ≡ n = length-tabulate {A = ℕ} n (λ i. 0) in
    let (out, runs, t) =
      read_bytes-IsTaken dst n v (omega (arith, v.level_in)) (omega (arith, v.level_in, small))
        (omega arith) in
    let gives =
      IsTaken-window b.bytes dst out b.size (wrap b.size b.rd_ptr) (level b) n fits (omega arith)
        t in
    let none : drop n dst ≡ [] = empty (drop n dst) (omega (arith, length-drop n dst)) in
    runs
    ∙ ap (λ l. done l)
        (gives ∙ (ap (λ l. take n (contents b) ++ l) none ∙ append-nil (take n (contents b))))

-- What a thread in the midst of a call may count on.
abbrev pub WriterFits : Cbuf → Writer → Type 0
WriterFits b w_idle = Unit
WriterFits b (w_test src) = Unit
WriterFits b (w_measure src) = level b < b.size
WriterFits b (w_copy src) = level b + length src ≤ b.size
WriterFits b (w_publish src) =
    (level b + length src ≤ b.size) × (contents (advance b (length src)) ≡ contents b ++ src)

abbrev pub ReaderFits : Cbuf → Reader → Type 0
ReaderFits b (r_copy n) = n ≤ level b
ReaderFits b (r_publish n out) = (n ≤ level b) × (out ≡ take n (contents b))
ReaderFits b r = Unit

-- The ring is valid, what was sent is what was received and what the ring holds, in this order, and
-- each thread can count on what it has found out.
pub record IsThreads (t : Threads) : Type 0 where
  pub valid : IsValid t.ring
  pub fifo : t.sent ≡ t.got ++ contents t.ring
  pub writer_fits : WriterFits t.ring t.writer
  pub reader_fits : ReaderFits t.ring t.reader
