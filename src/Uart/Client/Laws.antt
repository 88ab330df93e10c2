-- ===== src/Uart/Client/Laws.antt =====
-- What the client's reads and writes do to the rings.
use demo_testbench.Base.{
  ℕ, ◌+◌, ◌-◌, ◌%◌, ◌^◌, ◌≤◌, ◌<◌, ltb, if◌then◌else◌, take, drop, min, List, ◌++◌, length,
}
use demo_testbench.Base.{
  ◌≡◌, refl, ap, ◌∙◌, sym, arith, false, length-take, done, ok, failed, einval,
}
use demo_testbench.Cbuf
use demo_testbench.Cbuf.{Cbuf, fill_level, free_level}
use demo_testbench.Cbuf.Valid.{IsValid, fill_level_lem, free_level_lem}
use demo_testbench.Cbuf.Contents.{contents, length-contents}
use demo_testbench.Cbuf.Fifo.{put, get, read_short, read_refines, write_refines}
use demo_testbench.Uart.{Uart, min_int}
use demo_testbench.Uart.Thread.Laws.{min_int_lem, min_int_large}
use demo_testbench.Uart.Client.{gb_uart_read, gb_uart_write}

-- The calls, given what the calls of the ring come to.
read_ok :
    (u : Uart) (size : ℕ) (data' : List ℕ) (size_read n : ℕ) (out : List ℕ) (buf : Cbuf)
    → min_int (fill_level u.input_buffer) size ≡ n
    → Cbuf.read u.input_buffer data' n ≡ done (ok, out, buf)
    → gb_uart_read u 0 size data' size_read ≡ done (ok, out, n, record u { input_buffer = buf })
unfolding gb_uart_read
read_ok u size data' size_read n out buf e r = rw (e, r) refl

read_failed :
    (u : Uart) (size : ℕ) (data' : List ℕ) (size_read n : ℕ)
    → min_int (fill_level u.input_buffer) size ≡ n
    → Cbuf.read u.input_buffer data' n ≡ done (einval, data', u.input_buffer)
    → gb_uart_read u 0 size data' size_read ≡ done (failed, data', size_read, u)
unfolding gb_uart_read
read_failed u size data' size_read n e r = rw (e, r) refl

write_ok :
    (u : Uart) (size : ℕ) (data' : List ℕ) (size_written n : ℕ) (buf : Cbuf)
    → (if ltb (free_level u.output_buffer % 2 ^ 32) size
        then free_level u.output_buffer % 2 ^ 32
        else size)
      ≡ n
    → Cbuf.write u.output_buffer data' n ≡ done (ok, buf)
    → gb_uart_write u 0 size data' size_written ≡ done (ok, n, record u { output_buffer = buf })
unfolding gb_uart_write
write_ok u size data' size_written n buf e w = rw (e, w) refl

-- On a valid ring below 2^31 bytes, with an array that has room for the bytes asked for and fewer
-- than 2^31 of those, a read gives as many of the oldest bytes as there are, up to `size`, reports
-- how many, and leaves the others in the ring.
pub gb_uart_read_lem :
    (u : Uart) (size : ℕ) (data' : List ℕ) (size_read : ℕ)
    → IsValid u.input_buffer
    → u.input_buffer.size < 2 ^ 31
    → size < 2 ^ 31
    → size ≤ length data'
    → let n = min (length (contents u.input_buffer)) size in
      (buf : Cbuf) × (gb_uart_read u 0 size data' size_read
        ≡ done (
          ok,
          take n (contents u.input_buffer) ++ drop n data',
          n,
          record u { input_buffer = buf },
        ))
      × (contents buf ≡ drop n (contents u.input_buffer))
      × IsValid buf
      × (buf.size ≡ u.input_buffer.size)
unfolding get
gb_uart_read_lem u size data' size_read v small few room =
    let q = contents u.input_buffer in
    let n = min (length q) size in
    let level : fill_level u.input_buffer ≡ length q =
      fill_level_lem v ∙ sym (length-contents u.input_buffer) in
    let bound : length q < 2 ^ 31 = omega (arith, v.level_in, length-contents u.input_buffer) in
    let fits : ltb (length q) n ≡ false = ground arith in
    let taken : get q n ≡ (ok, take n q, drop n q) = rw fits refl in
    let len : length (take n q) ≡ n = omega (arith, length-take n q) in
    let (buf, reads, left, valid, same) =
      read_refines data' n v (omega (arith, small)) (omega arith) in
    let least : min_int (fill_level u.input_buffer) size ≡ n =
      ap (λ k. min_int k size) level ∙ min_int_lem (length q) size bound few in
    (
      buf,
      read_ok u size data' size_read n (take n q ++ drop n data') buf least (
          reads
          ∙ (ap (λ r. done (r.0, r.1 ++ drop (length r.1) data', buf)) taken
              ∙ ap (λ k. done (ok, take n q ++ drop k data', buf)) len)),
      left ∙ ap (λ r. r.2) taken,
      valid,
      same,
    )

-- On a valid ring below 2^31 bytes a write appends as many of the bytes as the ring has room for,
-- up to `size`, and reports how many.
pub gb_uart_write_lem :
    (u : Uart) (size : ℕ) (data' : List ℕ) (size_written : ℕ)
    → IsValid u.output_buffer
    → u.output_buffer.size < 2 ^ 31
    → size ≤ length data'
    → let n = min (u.output_buffer.size - length (contents u.output_buffer)) size in
      (buf : Cbuf) × (gb_uart_write u 0 size data' size_written
        ≡ done (ok, n, record u { output_buffer = buf }))
      × (contents buf ≡ contents u.output_buffer ++ take n data')
      × IsValid buf
      × (buf.size ≡ u.output_buffer.size)
unfolding put
gb_uart_write_lem u size data' size_written v small room =
    let q = contents u.output_buffer in
    let free = u.output_buffer.size - length q in
    let n = min free size in
    let level : free_level u.output_buffer % 2 ^ 32 ≡ free =
      omega (arith, free_level_lem v, length-contents u.output_buffer) in
    let least : (if ltb (free_level u.output_buffer % 2 ^ 32) size
          then free_level u.output_buffer % 2 ^ 32
          else size)
        ≡ n =
      rw level (ground arith) in
    let len : length (take n data') ≡ n = omega (arith, length-take n data') in
    let fits : ltb u.output_buffer.size (length q + length (take n data')) ≡ false =
      ground (arith, len, v.level_in, length-contents u.output_buffer) in
    let taken : put u.output_buffer.size q (take n data') ≡ (ok, q ++ take n data') =
      rw fits refl in
    let (buf, writes, holds, valid, same) = write_refines data' n v (omega arith) in
    (
      buf,
      write_ok u size data' size_written n buf least (rw taken at writes),
      rw taken at holds,
      valid,
      same,
    )

-- A read of 2^31 bytes or more, below 2^32, fails and takes nothing, whatever the ring holds: the
-- size becomes a negative `int` in `min`.
pub gb_uart_read_large :
    (u : Uart) (size : ℕ) (data' : List ℕ) (size_read : ℕ)
    → IsValid u.input_buffer
    → u.input_buffer.size < 2 ^ 31
    → 2 ^ 31 ≤ size
    → size < 2 ^ 32
    → gb_uart_read u 0 size data' size_read ≡ done (failed, data', size_read, u)
gb_uart_read_large u size data' size_read v small large wide =
    let q = contents u.input_buffer in
    let level : fill_level u.input_buffer ≡ length q =
      fill_level_lem v ∙ sym (length-contents u.input_buffer) in
    let bound : length q < 2 ^ 31 = omega (arith, v.level_in, length-contents u.input_buffer) in
    let wrapped : min_int (length q) size ≡ size + (2 ^ 64 - 2 ^ 32) =
      min_int_large (length q) size bound large wide in
    read_failed u size data' size_read (size + (2 ^ 64 - 2 ^ 32))
      (ap (λ k. min_int k size) level ∙ wrapped)
      (read_short u.input_buffer data' (size + (2 ^ 64 - 2 ^ 32)) (omega arith))
