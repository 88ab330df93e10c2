-- ===== src/Cbuf/Script.antt =====
-- Any sequence of calls of the basic mode, on the ring and on the queue.
use demo_testbench.Base.{ℕ, ◌^◌, ◌≤◌, List, [], ◌∷◌, ◌++◌, length, take, drop, tabulate, take_all}
use demo_testbench.Base.{length-tabulate, Outcome, done, ◌>>=◌, Status, ◌≡◌, refl, arith}
use demo_testbench.Cbuf.{Cbuf, write, read, discard}
use demo_testbench.Cbuf.Valid.{IsValid}
use demo_testbench.Cbuf.Contents.{contents}
use demo_testbench.Cbuf.Fifo.{put, get, write_refines, read_refines, discard_refines}

pub data Call : Type 0 where
  write_call : List ℕ → Call
  read_call discard_call : ℕ → Call

-- A fresh array of `n` bytes for a read.
abbrev pub fresh : ℕ → List ℕ
fresh n = tabulate n (λ _. 0)

-- What the caller sees of each call: its status, and the array after a read.
abbrev pub Reply : Type 0
Reply = Status × List ℕ

unfoldable pub run : Cbuf → List Call → Outcome (List Reply)
run b [] = done []
run b (write_call src ∷ calls) =
    write b src (length src) >>= λ (s, b'). run b' calls >>= λ rest. done ((s, []) ∷ rest)
run b (read_call n ∷ calls) =
    read b (fresh n) n >>= λ (s, out, b'). run b' calls >>= λ rest. done ((s, out) ∷ rest)
run b (discard_call n ∷ calls) =
    let (s, b') = discard b n in run b' calls >>= λ rest. done ((s, []) ∷ rest)

-- The same on the queue of at most `cap` bytes.
unfoldable pub run_queue : ℕ → List ℕ → List Call → List Reply
run_queue cap q [] = []
run_queue cap q (write_call src ∷ calls) =
    let (s, q') = put cap q src in (s, []) ∷ run_queue cap q' calls
run_queue cap q (read_call n ∷ calls) =
    let (s, got, q') = get q n in (s, got ++ drop (length got) (fresh n)) ∷ run_queue cap q' calls
run_queue cap q (discard_call n ∷ calls) =
    let (s, got, q') = get q n in (s, []) ∷ run_queue cap q' calls

-- No sequence of writes, reads and discards tells a valid ring of at most 2^31 bytes from the
-- bounded queue of its contents, and none of them leaves an object or fails an assertion.
pub run_refines :
    (calls : List Call) {b : Cbuf}
    → IsValid b
    → b.size ≤ 2 ^ 31
    → run b calls ≡ done (run_queue b.size (contents b) calls)
unfolding run run_queue
run_refines [] v small = refl
run_refines (write_call src ∷ calls) {b} v small =
    let (b', e, same, v', size) = write_refines src (length src) v (omega arith) in
    let all : take (length src) src ≡ src = take_all (length src) src (omega arith) in
    rw ((rw all at e), run_refines calls v' (rw size small), (rw all at same), size) refl
run_refines (read_call n ∷ calls) {b} v small =
    let (b', e, same, v', size) =
      read_refines (fresh n) n v small (omega (arith, length-tabulate {A = ℕ} n (λ _. 0))) in
    rw (e, run_refines calls v' (rw size small), same, size) refl
run_refines (discard_call n ∷ calls) {b} v small =
    let (s, same, v', size) = discard_refines n v in
    rw (run_refines calls v' (rw size small), s, same, size) refl
