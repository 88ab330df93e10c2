-- ===== src/Jtag/Client.antt =====
-- The client's calls of the JTAG backend, and how it finds the widths of its target. What the thread
-- does while a call blocks is a list, as for the other backends; the target's answer to a request is
-- a function.
pub mod Laws
mod Tests
use demo_testbench.Base.{
  ℕ, ◌+◌, ◌*◌, ◌/◌, ◌%◌, ◌^◌, ltb, leb, ◌==◌, not, ◌&&◌, if◌then◌else◌, List, [], ◌∷◌, length, take,
  Option, none, some,
}
use demo_testbench.Base.{
  Outcome, done, fault, ◌>>=◌, ◌>>◌, assert_that, Status, ok, failed, etimedout, is_ok,
}
use demo_testbench.Cbuf
use demo_testbench.Cbuf.{Cbuf, fill_level, free_level}
use demo_testbench.Jtag.{Jtag}
use demo_testbench.Uart.{min_int}
use demo_testbench.Waits.{Wake, wait_filled, write_all}

-- BUFFER_SIZE
abbrev pub buffer_size : ℕ
buffer_size = 65536

-- What `gb_jtag_read` does to the ring: the status, the caller's array, what `size_read` points to.
pub read_some : Cbuf → ℕ → List ℕ → ℕ → Outcome (Status × List ℕ × ℕ × Cbuf)
read_some b size data' size_read =
    let n = min_int (fill_level b) size in
    Cbuf.read b data' n >>= λ (s, out, b').
    if is_ok s then done (ok, out, n, b') else done (failed, out, size_read, b')

pub gb_jtag_read : Jtag → ℕ → ℕ → List ℕ → ℕ → Outcome (Status × List ℕ × ℕ × Jtag)
unfolding read_some
gb_jtag_read u channel size data' size_read =
    if not (channel == 0)
    then done (failed, data', size_read, u)
    else read_some u.read_buf size data' size_read >>= λ (s, out, n, b).
        done (s, out, n, record u { read_buf = b })

-- The free level goes through an `unsigned int`.
pub gb_jtag_write : Jtag → ℕ → ℕ → List ℕ → ℕ → Outcome (Status × ℕ × Jtag)
gb_jtag_write u channel size data' size_written =
    let free = free_level u.write_buf % 2 ^ 32 in
    let n = if ltb free size then free else size in
    if not (channel == 0)
    then done (failed, size_written, u)
    else Cbuf.write u.write_buf data' n >>= λ (s, b). done (ok, n, record u { write_buf = b })

-- The channel is not looked at before the read.
pub gb_jtag_read_b :
    Jtag → List Wake → ℕ → ℕ → List ℕ → ℕ → Outcome (Status × List ℕ × ℕ × Jtag × List Wake)
unfolding gb_jtag_read
gb_jtag_read_b u ws channel size data' size_read =
    if ltb buffer_size size
    then done (failed, data', size_read, u, ws)
    else wait_filled size ws u.read_buf >>= λ (b, ws').
        gb_jtag_read (record u { read_buf = b }) channel size data' 0 >>= λ (s, out, n, u').
        done (if is_ok s && not (size == n) then etimedout else s, out, n, u', ws')

-- The caller's array has at least `size` bytes. The loop ends when none is left to write.
pub gb_jtag_write_b : Jtag → List ℕ → ℕ → ℕ → List ℕ → ℕ → Outcome (Status × ℕ × Jtag × List ℕ)
gb_jtag_write_b u ks channel size data' size_written =
    let xs = take size data' in
    if not (channel == 0)
    then done (failed, size_written, u, ks)
    else if ltb (length data') size
    then fault
    else write_all ks u.write_buf xs >>= λ (b, ks').
        done
          (if length xs == size then ok else etimedout, length xs, record u { write_buf = b }, ks')

abbrev pub gb_jtag_get_channel_count : Jtag → ℕ
gb_jtag_get_channel_count u = 1

abbrev pub gb_jtag_get_fifo_width : Jtag → ℕ
gb_jtag_get_fifo_width u = u.target_word_width

-- The three words of a control request or its answer, of two bytes each, on a machine that stores the
-- lower byte first; the answer to a request has its length.
pub control_words : List ℕ → Outcome (ℕ × ℕ × ℕ)
control_words (a ∷ b ∷ c ∷ d ∷ e ∷ f ∷ more) = done (a + 256 * b, c + 256 * d, e + 256 * f)
control_words resp = fault

-- `none` is a failure of `jtag_drscan`.
pub gb_jtag_logic_reset : (List ℕ → Option (List ℕ)) → Status
gb_jtag_logic_reset target = elim (target (0xff ∷ 0xff ∷ 1 ∷ 0 ∷ 0 ∷ 0 ∷ [])) [
  | none ↦ failed
  | some resp ↦ ok
]

-- What the answer to the request for the configuration sets. The shift is one of an `int`.
pub set_targetconf : Jtag → ℕ × ℕ × ℕ → Outcome (Status × Jtag)
set_targetconf u (head, bits, log_size) =
    assert_that (not (bits == 0))
    >> (assert_that (bits % 8 == 0)
        >> (if leb 31 log_size
            then fault
            else done
                (ok, record u { target_word_width = bits / 8; target_buffer_size = 2 ^ log_size })))

pub discover_targetconf : (List ℕ → Option (List ℕ)) → Jtag → Outcome (Status × Jtag)
unfolding control_words set_targetconf
discover_targetconf target u = elim (target (0xff ∷ 0xff ∷ 0 ∷ 0 ∷ 0 ∷ 0 ∷ [])) [
  | none ↦ done (failed, u)
  | some resp ↦ control_words resp >>= λ conf. set_targetconf u conf
]
