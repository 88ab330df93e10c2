-- ===== src/Uart/Client.antt =====
-- The client calls, and the constants that the backend reports.
pub mod Laws
pub mod Blocking
mod Tests
use demo_testbench.Base.{
  ℕ, ◌%◌, ◌^◌, ltb, ◌==◌, not, ◌&&◌, length, take, fault, etimedout, if◌then◌else◌, List, Outcome,
  done, ◌>>=◌, Status, ok, failed, is_ok,
}
use demo_testbench.Cbuf
use demo_testbench.Cbuf.{fill_level, free_level}
use demo_testbench.Uart.{Uart, min_int}
use demo_testbench.Waits.{Wake, wait_filled, write_all}

-- The status, the caller's array, what `size_read` points to, and the backend.
pub gb_uart_read : Uart → ℕ → ℕ → List ℕ → ℕ → Outcome (Status × List ℕ × ℕ × Uart)
gb_uart_read u channel size data' size_read =
    let size_read_req = min_int (fill_level u.input_buffer) size in
    if ltb 0 channel
    then done (failed, data', size_read, u)
    else Cbuf.read u.input_buffer data' size_read_req >>= λ (s, data'', buf).
        if is_ok s
        then done (ok, data'', size_read_req, record u { input_buffer = buf })
        else done (failed, data'', size_read, record u { input_buffer = buf })

-- The status, what `size_written` points to, and the backend. The free level goes through an
-- `unsigned int`.
pub gb_uart_write : Uart → ℕ → ℕ → List ℕ → ℕ → Outcome (Status × ℕ × Uart)
gb_uart_write u channel size data' size_written =
    let buf_size_free = free_level u.output_buffer % 2 ^ 32 in
    let n = if ltb buf_size_free size then buf_size_free else size in
    if ltb 0 channel
    then done (failed, size_written, u)
    else Cbuf.write u.output_buffer data' n >>= λ (s, buf).
        done (ok, n, record u { output_buffer = buf })

pub gb_uart_get_channel_count : Uart → ℕ
gb_uart_get_channel_count u = 1

pub gb_uart_get_fifo_width : Uart → ℕ
gb_uart_get_fifo_width u = 1

-- The calls that block; `ws` and `ks` say what the thread does meanwhile, and what is left of them is
-- the last component. Which of the two waits is called depends on the timeout.
pub gb_uart_read_b :
    Uart → List Wake → ℕ → ℕ → List ℕ → ℕ → Outcome (Status × List ℕ × ℕ × Uart × List Wake)
unfolding gb_uart_read
gb_uart_read_b u ws channel size data' size_read =
    if ltb 0 channel
    then done (failed, data', size_read, u, ws)
    else if ltb u.buffer_size size
    then done (failed, data', size_read, u, ws)
    else wait_filled size ws u.input_buffer >>= λ (buf, ws').
        gb_uart_read (record u { input_buffer = buf }) channel size data' 0 >>= λ (s, out, n, u').
        done (if is_ok s && not (size == n) then etimedout else s, out, n, u', ws')

-- The caller's array has at least `size` bytes. The loop ends when none is left to write.
pub gb_uart_write_b : Uart → List ℕ → ℕ → ℕ → List ℕ → ℕ → Outcome (Status × ℕ × Uart × List ℕ)
gb_uart_write_b u ks channel size data' size_written =
    let xs = take size data' in
    if ltb 0 channel
    then done (failed, size_written, u, ks)
    else if ltb (length data') size
    then fault
    else write_all ks u.output_buffer xs >>= λ (buf, ks'). done (
      if length xs == size then ok else etimedout,
      length xs,
      record u { output_buffer = buf },
      ks',
    )
