-- ===== src/Waits.antt =====
-- The loops of the backends' blocking calls on their rings, in backend_uart.c, backend_jtag.c and
-- backend_cypressfx2.c under glip/src. What the backend's thread does to the ring while a call
-- waits, or between two rounds of its loop, is a list; it acts in these places only.
pub mod Laws
pub mod Writes
pub mod Deadline
mod Tests
use demo_testbench.Base.{
  ℕ, ◌-◌, ◌%◌, ◌^◌, ◌==◌, ltb, if◌then◌else◌, List, [], ◌∷◌, length, drop, Outcome, done, hang,
  ◌>>=◌,
}
use demo_testbench.Cbuf
use demo_testbench.Cbuf.{Cbuf, fill_level, free_level}

-- The end of a wait, with the bytes that the thread has put into the ring: the level has changed, or
-- the wait has failed or taken too long.
pub data Wake : Type 0 where
  changed gave_up : List ℕ → Wake

-- The loop of a blocking read, `while (cbuf_fill_level(...) < size)`.
pub wait_filled : ℕ → List Wake → Cbuf → Outcome (Cbuf × List Wake)
wait_filled size [] b = if ltb (fill_level b) size then hang else done (b, [])
wait_filled size (changed xs ∷ ws) b =
    let rest = Cbuf.write b xs (length xs) >>= λ (s, b'). wait_filled size ws b' in
    if ltb (fill_level b) size then rest else done (b, changed xs ∷ ws)
wait_filled size (gave_up xs ∷ ws) b =
    if ltb (fill_level b) size
    then (Cbuf.write b xs (length xs) >>= λ (s, b'). done (b', ws))
    else done (b, gave_up xs ∷ ws)

-- What a write that does not block puts into the ring; the free level goes through an `unsigned int`.
pub write_some : Cbuf → List ℕ → Outcome (ℕ × Cbuf)
write_some b xs =
    let free = free_level b % 2 ^ 32 in
    let n = if ltb free (length xs) then free else length xs in
    Cbuf.write b xs n >>= λ (s, b'). done (n, b')

-- The loop of a blocking write of `xs`. After each round that leaves some, the thread takes a number
-- of bytes, whether the call waits (it does so if the ring is full, and does not look at how the wait
-- ends) or goes on at once.
pub write_all : List ℕ → Cbuf → List ℕ → Outcome (Cbuf × List ℕ)
unfolding write_some
write_all [] b xs = write_some b xs >>= λ (n, b'). if n == length xs then done (b', []) else hang
write_all (k ∷ ks) b xs = write_some b xs >>= λ (n, b').
    let rest = write_all ks (Cbuf.discard b' k).1 (drop n xs) in
    if n == length xs then done (b', k ∷ ks) else rest
