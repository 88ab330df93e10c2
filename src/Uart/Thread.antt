-- ===== src/Uart/Thread.antt =====
-- One round of the communication thread, `thread_func`.
pub mod Laws
pub mod Read
use demo_testbench.Base.{ℕ, ltb, ◌==◌, if◌then◌else◌, add_size, sub_size, Bool, true, false, not}
use demo_testbench.Base.{
  List, [], ◌∷◌, length, take, Outcome, done, fault, ◌>>=◌, ◌>>◌, assert_that,
}
use demo_testbench.Base.{Status, einval, is_ok}
use demo_testbench.Cbuf
use demo_testbench.Cbuf.{fill_level, free_level}
use demo_testbench.Uart.{Uart, marker, uart_max_tranche, tmp_buffer_size, min_int, receive, poll}
use demo_testbench.Uart.{update_debt, send_credit, reset_logic, parse_buffer, send_words}

abbrev pub is_einval : Status → Bool
is_einval einval = true
is_einval _ = false

-- The check for a reset.
pub reset_step : Uart → Outcome Uart
reset_step u =
    if u.reset_request == 1
    then (reset_logic u 1 >>= λ (s, u').
        assert_that (is_ok s)
        >> (reset_logic u' 0 >>= λ (s', u'').
            assert_that (is_ok s') >> done (record u'' { reset_request = 0 })))
    else done u

-- The two bytes after the marker of the only message that a full ring expects.
pub full_message : Uart → List ℕ → Outcome Uart
full_message u [] = done u
full_message u (byte ∷ rest) =
    assert_that (byte == marker)
    >> (receive u 2 >>= λ (s, got, u'). assert_that (is_ok s) >> full_debt u' got)
  where
    full_debt : Uart → List ℕ → Outcome Uart
    full_debt v (first ∷ second ∷ more) = done (update_debt v first second)
    full_debt v _ = assert_that false >> done v

-- The read part. More bytes than the temporary buffer has would be written beyond its end.
pub read_step : Uart → Outcome Uart
read_step u =
    let avail = free_level u.input_buffer in
    if avail == 0
    then (poll u 1 >>= λ (got, u'). full_message u' got)
    else (poll u (min_int avail tmp_buffer_size) >>= λ (got, u').
        if ltb tmp_buffer_size (length got)
        then fault
        else if ltb 0 (length got)
        then parse_buffer u' got
        else done u')

-- The write part, with what the temporary buffer holds.
pub write_step : Uart → List ℕ → Outcome Uart
write_step u buffer =
    let size = min_int u.debt tmp_buffer_size in
    let avail = fill_level u.output_buffer in
    let n = min_int avail size in
    if ltb 0 u.debt
    then if ltb 0 avail
      then (Cbuf.read u.output_buffer buffer n >>= λ (s, buffer', buf).
          assert_that (not (is_einval s))
          >> (send_words (record u { output_buffer = buf }) (take n buffer') >>= λ u'.
              done (record u' { debt = sub_size u'.debt n })))
      else done u
    else done u

pub credit_step : Uart → Outcome Uart
credit_step u =
    if ltb u.credit (sub_size u.buffer_size uart_max_tranche)
    then (send_credit (record u { credit = add_size u.credit uart_max_tranche }) uart_max_tranche
        >>= λ (s, u'). done u')
    else done u

-- A round, which goes on to the next unless termination is requested.
pub thread_round : Uart → List ℕ → Outcome (Bool × Uart)
thread_round u buffer = reset_step u >>= λ u0.
    if u0.term_request == 0
    then (read_step u0 >>= λ u1.
        write_step u1 buffer >>= λ u2. credit_step u2 >>= λ u3. done (true, u3))
    else done (false, u0)
