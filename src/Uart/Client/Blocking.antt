-- ===== src/Uart/Client/Blocking.antt =====
-- What the client's blocking calls do.
use demo_testbench.Base.{
  ℕ, ◌^◌, ◌≤◌, ◌<◌, ◌==◌, ltb, if◌then◌else◌, take, drop, min, List, ◌++◌, length,
}
use demo_testbench.Base.{
  ◌≡◌, refl, ap, ◌∙◌, arith, Bool-cases, not, ◌&&◌, true, false, length-take, done, hang, ok,
  etimedout, inl, inr, ◌⊎◌, Status,
}
use demo_testbench.Cbuf.{Cbuf}
use demo_testbench.Cbuf.Valid.{IsValid}
use demo_testbench.Cbuf.Contents.{contents}
use demo_testbench.Uart.{Uart}
use demo_testbench.Uart.Client.{gb_uart_read, gb_uart_read_b, gb_uart_write_b}
use demo_testbench.Uart.Client.Laws.{gb_uart_read_lem}
use demo_testbench.Waits.{Wake, wait_filled}
use demo_testbench.Waits.Laws.{
  arrive, Waited, wait_filled-Grown, BringBytes, wait_filled-BringBytes,
}
use demo_testbench.Waits.Writes.{write_all-Sent}

-- What a blocking read gives after the waits `used`, with what the ring holds then.
pub record Delivered (u u' : Uart) (size : ℕ) (data' out : List ℕ) (s : Status) (n : ℕ)
    (ws ws' : List Wake) : Type 0 where
  pub used : List Wake
  pub used_first : ws ≡ used ++ ws'
  pub ended : Waited size u.input_buffer.size (contents u.input_buffer) used
  pub count : n ≡ min (length (arrive u.input_buffer.size (contents u.input_buffer) used)) size
  pub bytes :
      out ≡ take n (arrive u.input_buffer.size (contents u.input_buffer) used) ++ drop n data'
  pub rest :
      contents u'.input_buffer ≡ drop n (arrive u.input_buffer.size (contents u.input_buffer) used)
  pub says : s ≡ (if size == n then ok else etimedout)
  pub valid : IsValid u'.input_buffer
  pub same_size : u'.input_buffer.size ≡ u.input_buffer.size

final_status :
    (size n : ℕ)
    → (if true && not (size == n) then etimedout else ok) ≡ (if size == n then ok else etimedout)
final_status size n = elim (Bool-cases (size == n)) [
  | inl all ↦ rw all refl
  | inr less ↦ rw less refl
]

read_b_from :
    (u u' : Uart) (size n : ℕ) (data' out : List ℕ) (size_read : ℕ) (ws ws' : List Wake)
    (buf : Cbuf)
    → size ≤ u.buffer_size
    → wait_filled size ws u.input_buffer ≡ done (buf, ws')
    → gb_uart_read (record u { input_buffer = buf }) 0 size data' 0 ≡ done (ok, out, n, u')
    → gb_uart_read_b u ws 0 size data' size_read
      ≡ done (if size == n then ok else etimedout, out, n, u', ws')
unfolding gb_uart_read_b
read_b_from u u' size n data' out size_read ws ws' buf few waits reads =
    let not_large : ltb u.buffer_size size ≡ false = ground arith in
    rw (not_large, waits, reads) (λ i. done (final_status size n i, out, n, u', ws'))

-- On a valid ring below 2^31 bytes, with an array that has room for the bytes asked for, fewer
-- than 2^31 and no more than the buffer holds: a blocking read goes on for ever, or it uses the
-- first of the waits, until the ring holds the bytes asked for or a wait gives up, and gives the
-- oldest of the bytes that were there and of those that these waits have brought behind them, up
-- to size, in order, and leaves the others (a wait for whose bytes there is no room brings none);
-- it is a success exactly with all bytes asked for, and a timeout with fewer.
pub gb_uart_read_b-Delivered :
    (u : Uart) (ws : List Wake) (size : ℕ) (data' : List ℕ) (size_read : ℕ)
    → IsValid u.input_buffer
    → u.input_buffer.size < 2 ^ 31
    → size < 2 ^ 31
    → size ≤ u.buffer_size
    → size ≤ length data'
    → (gb_uart_read_b u ws 0 size data' size_read ≡ hang)
      ⊎ ((s : Status) × (out : List ℕ) × (n : ℕ) × (u' : Uart) × (ws' : List Wake) × (gb_uart_read_b
              u ws 0 size data' size_read
            ≡ done (s, out, n, u', ws'))
          × Delivered u u' size data' out s n ws ws')
unfolding gb_uart_read_b
gb_uart_read_b-Delivered u ws size data' size_read v small few limit room =
    elim (wait_filled-Grown size ws u.input_buffer v) [
      | inl waits ↦
          let not_large : ltb u.buffer_size size ≡ false = ground arith in
          inl (rw (not_large, waits) refl)
      | inr (buf, used, ws', parts, waits, g) ↦
          let u1 = record u { input_buffer = buf } in
          let (buf', reads, left, valid, same) =
            gb_uart_read_lem u1 size data' 0 g.valid (omega (arith, g.same_size)) few room in
          let n = min (length (contents buf)) size in
          inr (
            _,
            _,
            n,
            record u { input_buffer = buf' },
            ws',
            read_b_from u (record u { input_buffer = buf' }) size n data' _ size_read ws ws' buf
                limit waits reads,
            record {
              used = used;
              used_first = parts;
              ended = g.ended;
              count = ap (λ l. min (length l) size) g.holds;
              bytes = ap (λ l. take n l ++ drop n data') g.holds;
              rest = left ∙ ap (λ l. drop n l) g.holds;
              says = refl;
              valid = valid;
              same_size = same ∙ g.same_size;
            },
          )
    ]

-- On a valid ring below 2^31 bytes, with an array that has room for the bytes asked for, fewer
-- than 2^31 and no more than the buffer holds: if each wait that is made ends with a change and
-- brings no more bytes than there is room for at that time, until the ring holds the bytes asked
-- for, a blocking read succeeds and reports all of them.
pub gb_uart_read_b-BringBytes :
    (u : Uart) (ws : List Wake) (size : ℕ) (data' : List ℕ) (size_read : ℕ)
    → IsValid u.input_buffer
    → u.input_buffer.size < 2 ^ 31
    → size < 2 ^ 31
    → size ≤ u.buffer_size
    → size ≤ length data'
    → BringBytes size u.input_buffer.size (length (contents u.input_buffer)) ws
    → (out : List ℕ) × (u' : Uart) × (ws' : List Wake) × (gb_uart_read_b u ws 0 size data' size_read
        ≡ done (ok, out, size, u', ws'))
gb_uart_read_b-BringBytes u ws size data' size_read v small few limit room brings =
    let (buf, ws', waits, v1, size1, full) =
      wait_filled-BringBytes size ws u.input_buffer v brings in
    let u1 = record u { input_buffer = buf } in
    let (buf', reads, left, valid, same) =
      gb_uart_read_lem u1 size data' 0 v1 (omega (arith, size1)) few room in
    let n = min (length (contents buf)) size in
    let all : n ≡ size = omega (arith, full) in
    let test : (size == n) ≡ true = ground arith in
    let good : (if size == n then ok else etimedout) ≡ ok = rw test refl in
    (
      _,
      record u { input_buffer = buf' },
      ws',
      read_b_from u (record u { input_buffer = buf' }) size n data' _ size_read ws ws' buf limit
            waits reads
          ∙ (λ i. done (
            good i,
            take n (contents buf) ++ drop n data',
            all i,
            record u { input_buffer = buf' },
            ws',
          )),
    )

-- On a valid ring below 2^31 bytes, and however the waits end: a blocking write goes on for ever, or
-- succeeds with all its bytes in the ring, in order, behind those that were there, of which the thread
-- has taken some of the oldest. So it never reports a timeout.
pub gb_uart_write_b-Sent :
    (u : Uart) (ks : List ℕ) (size : ℕ) (data' : List ℕ) (size_written : ℕ)
    → IsValid u.output_buffer
    → u.output_buffer.size < 2 ^ 31
    → size ≤ length data'
    → (gb_uart_write_b u ks 0 size data' size_written ≡ hang)
      ⊎ ((buf : Cbuf) × (ks' : List ℕ) × (gone : ℕ) × (gb_uart_write_b u ks 0 size data'
              size_written
            ≡ done (ok, size, record u { output_buffer = buf }, ks'))
          × (contents buf ≡ drop gone (contents u.output_buffer ++ take size data'))
          × IsValid buf
          × (buf.size ≡ u.output_buffer.size))
unfolding gb_uart_write_b
gb_uart_write_b-Sent u ks size data' size_written v small room =
    let enough : ltb (length data') size ≡ false = ground arith in
    let len : length (take size data') ≡ size = omega (arith, length-take size data') in
    let whole : (size == size) ≡ true = ground arith in
    elim (write_all-Sent ks u.output_buffer (take size data') v small) [
      | inl waits ↦ inl (rw (enough, waits) refl)
      | inr (buf, ks', ends, v', same, (gone, holds)) ↦
          inr (buf, ks', gone, rw (enough, ends, len, whole) refl, holds, v', same)
    ]
