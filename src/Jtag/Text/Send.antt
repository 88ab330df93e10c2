-- ===== src/Jtag/Text/Send.antt =====
-- `write_b`, with which a command goes to OpenOCD. A call of `write` takes the next of a list of
-- answers.
pub mod Laws
mod Tests
use demo_testbench.Base.{
  ℕ, ◌+◌, ◌-◌, ◌%◌, ◌^◌, ltb, if◌then◌else◌, List, [], ◌∷◌, ◌++◌, length, take, drop, Option, none,
  some, Outcome, done, hang,
}

-- An answer of `write`: it takes at most `k` bytes, or it gives -1 with EAGAIN, or with another error.
pub data Answer : Type 0 where
  took : ℕ → Answer
  again other_error : Answer

-- The loop: what the function returns, where `none` is the -1 of an error, and the bytes that were
-- written. The number that was written so far is a `size_t`, and -1 is added to it with EAGAIN.
pub write_loop_b : List Answer → List ℕ → ℕ → List ℕ → Outcome (Option ℕ × List ℕ)
write_loop_b [] buf nbyte_written out = hang
write_loop_b (other_error ∷ answers) buf nbyte_written out = done (none, out)
write_loop_b (again ∷ answers) buf nbyte_written out =
    let next = (nbyte_written + (2 ^ 64 - 1)) % 2 ^ 64 in
    let rest = write_loop_b answers buf next out in
    if ltb next (length buf) then rest else done (some next, out)
write_loop_b (took k ∷ answers) buf nbyte_written out =
    let xs = take k (drop nbyte_written buf) in
    let next = (nbyte_written + length xs) % 2 ^ 64 in
    let rest = write_loop_b answers buf next (out ++ xs) in
    if ltb next (length buf) then rest else done (some next, out ++ xs)

pub write_b : List Answer → List ℕ → Outcome (Option ℕ × List ℕ)
unfolding write_loop_b
write_b answers buf = write_loop_b answers buf 0 []
