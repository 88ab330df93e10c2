-- ===== src/Uart.antt =====
-- The UART backend, glip/src/backend_uart/sw/backend_uart.c: its state, the messages of the
-- protocol, and the communication thread.
pub mod Serial
pub mod Messages
pub mod Items
pub mod Deliver
pub mod Parse
pub mod Thread
pub mod Client
pub mod Reset
mod Tests
use demo_testbench.Base.{
  ℕ, zero, suc, ◌+◌, ◌-◌, ◌*◌, ◌/◌, ◌%◌, ◌^◌, bit_and, bit_or, ltb, leb, ◌==◌,
}
use demo_testbench.Base.{
  if◌then◌else◌, add_size, sub_size, Bool, true, false, not, List, [], ◌∷◌, length, take, drop,
  tabulate,
}
use demo_testbench.Base.{
  Option, none, some, Outcome, done, hang, ◌>>=◌, ◌>>◌, assert_that, Status, ok, failed, is_ok,
}
use demo_testbench.Cbuf
use demo_testbench.Cbuf.{Cbuf}
use demo_testbench.Uart.Serial.{
  Timeval, Event, Line, read_blocking, write_blocking, granted, is_broken,
}

-- The fields of `struct glip_backend_ctx` that the session uses; `line` stands for `fd`.
pub record Uart : Type 0 where
  pub line : Line
  pub speed : ℕ
  pub buffer_size : ℕ
  pub input_buffer : Cbuf
  pub output_buffer : Cbuf
  pub debt : ℕ
  pub credit : ℕ
  pub reset_request : ℕ
  pub term_request : ℕ

abbrev pub uart_max_tranche : ℕ
uart_max_tranche = 0x3fff

abbrev pub tmp_buffer_size : ℕ
tmp_buffer_size = 256

-- The byte that starts a message.
abbrev pub marker : ℕ
marker = 0xfe

-- The start time of a call without a timeout is not set.
abbrev pub no_time : Timeval
no_time = record { sec = 0; usec = 0 }

-- `min` of util.h on two `size_t`: both are converted to `int`, and the result back.
pub min_int : ℕ → ℕ → ℕ
min_int a b =
    let x = a % 2 ^ 32 in
    let y = b % 2 ^ 32 in
    let least = if ltb ((y + 2 ^ 31) % 2 ^ 32) ((x + 2 ^ 31) % 2 ^ 32) then y else x in
    if ltb least (2 ^ 31) then least else least + (2 ^ 64 - 2 ^ 32)

-- `write_blocking(ctx->fd, xs, ..., 0)` and `read_blocking(ctx->fd, ..., n, &actual, 0)`
pub send : Uart → List ℕ → Outcome (Status × Uart)
send u xs = write_blocking u.line no_time xs 0 >>= λ (s, line'). done (s, record u { line = line' })

pub receive : Uart → ℕ → Outcome (Status × List ℕ × Uart)
receive u n =
    read_blocking u.line no_time n 0 >>= λ (s, got, line'). done (s, got, record u { line = line' })

-- `read(ctx->fd, buffer, n)`: no bytes, where it fails or has none.
pub poll : Uart → ℕ → Outcome (List ℕ × Uart)
poll u n = elim (u.line.reads) [
  | [] ↦ hang
  | e ∷ es ↦ done (
    take (granted e n) u.line.pending,
    record u { line = record (u.line) { pending = drop (granted e n) u.line.pending; reads = es } },
  )
]

pub update_debt : Uart → ℕ → ℕ → Uart
update_debt u first second = record u {
  debt = add_size u.debt (bit_or (bit_and (first / 2) 0x7f * 2 ^ 8) second);
}

-- The three bytes of a credit message.
pub credit_message : ℕ → List ℕ
credit_message tranche =
    marker ∷ (bit_or 0x1 (tranche / 2 ^ 8 * 2) % 2 ^ 8) ∷ (bit_and tranche 0xff % 2 ^ 8) ∷ []

pub send_credit : Uart → ℕ → Outcome (Status × Uart)
send_credit u tranche =
    send u (credit_message tranche) >>= λ (s, u'). done (if is_ok s then ok else failed, u')

pub reset_logic : Uart → ℕ → Outcome (Status × Uart)
reset_logic u state = send u (marker ∷ bit_or (bit_and state 0x1 * 2) 0x81 ∷ [])

pub reset_com : Uart → ℕ → Outcome (Status × Uart)
reset_com u state = send u (marker ∷ bit_or (bit_and state 0x1 * 2) 0x85 ∷ [])

-- A data word in `parse_buffer`.
pub put_word : Uart → ℕ → Outcome Uart
put_word u byte = do
  assert_that (ltb 0 u.credit)
  (s, buf) ← Cbuf.write u.input_buffer (byte ∷ []) 1
  assert_that (is_ok s)
  done (record u { input_buffer = buf; credit = u.credit - 1 })

-- The byte that a successful read of one byte left in the buffer; the loop of `read_blocking`
-- ends with `ok` only if it has read one.
pub first_byte : Status × List ℕ × Uart → Outcome (ℕ × Uart)
first_byte (s, [], u) = assert_that (is_ok s) >> hang
first_byte (s, byte ∷ rest, u) = assert_that (is_ok s) >> done (byte, u)

pub receive_byte : Uart → Outcome (ℕ × Uart)
unfolding first_byte
receive_byte u = receive u 1 >>= first_byte

-- A marker was the last byte of the buffer: its message goes on in the terminal.
pub marker_last : Uart → Outcome Uart
marker_last u = receive_byte u >>= λ (first, u').
    if first == marker
    then put_word u' first
    else receive_byte u' >>= λ (second, u''). done (update_debt u'' first second)

-- `parse_buffer` on the bytes of the buffer from `i` on. The buffer is reused only in the last
-- round, for bytes that are read beyond its end.
pub parse_buffer : Uart → List ℕ → Outcome Uart
parse_buffer u [] = done u
parse_buffer u (a ∷ []) = if a == marker then marker_last u else put_word u a
parse_buffer u (a ∷ b ∷ []) =
    if a == marker
    then if b == marker
      then put_word u a
      else (receive_byte u >>= λ (second, u'). done (update_debt u' b second))
    else put_word u a >>= λ u'. parse_buffer u' (b ∷ [])
parse_buffer u (a ∷ b ∷ c ∷ rest) =
    if a == marker
    then if b == marker
      then (put_word u a >>= λ u'. parse_buffer u' (c ∷ rest))
      else (done (update_debt u b c) >>= λ u'. parse_buffer u' rest)
    else put_word u a >>= λ u'. parse_buffer u' (b ∷ c ∷ rest)

-- The loop of the thread that writes words, repeating a marker.
pub send_words : Uart → List ℕ → Outcome Uart
send_words u [] = done u
send_words u (w ∷ ws) = send u (w ∷ []) >>= λ (s, u').
    assert_that (is_ok s)
    >> (if w == marker
        then (send u' (w ∷ []) >>= λ (s', u''). assert_that (is_ok s') >> send_words u'' ws)
        else send_words u' ws)
