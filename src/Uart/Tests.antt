-- ===== src/Uart/Tests.antt =====
-- The UART backend with rings of 4 bytes and a terminal that answers in small pieces.
use demo_testbench.Base.{
  ℕ, zero, suc, ◌+◌, ◌*◌, ◌%◌, ◌≤◌, ◌<◌, ltb, if◌then◌else◌, none, List, [], ◌∷◌, ◌++◌,
}
use demo_testbench.Base.{
  take, drop, tabulate, length-tabulate, add_size, done, abort, ok, ◌≡◌, refl, ◌↔◌, inl, inr, true,
  Bool, arith,
}
use demo_testbench.Cbuf.{Cbuf, fill_level}
use demo_testbench.Cbuf.Valid.{IsValid, fill_level_lem}
use demo_testbench.Uart.{
  Uart, marker, no_time, uart_max_tranche, update_debt, credit_message, parse_buffer,
}
use demo_testbench.Uart.Serial.{
  Timeval, check_timeout, Event, give, again, Line, read_blocking, write_blocking,
}
use demo_testbench.Uart.Serial.Timeout.{microseconds, check_timeout_lem}
use demo_testbench.Uart.Serial.Laws.{IsReady, read_blocking_lem, write_blocking_lem}
use demo_testbench.Uart.Messages.{update_debt-credit_message}
use demo_testbench.Uart.Items.{Item, word, credit_given, with_line, deliver}
use demo_testbench.Uart.Deliver.{Delivered, deliver-words_of}
use demo_testbench.Uart.Parse.{parse_buffer-encode}
use demo_testbench.Uart.Thread.{read_step, write_step, credit_step}
use demo_testbench.Uart.Thread.Laws.{Wrote, tranche_size, write_step-encode}
use demo_testbench.Base.{failed}
use demo_testbench.Uart.Client.{gb_uart_read}
use demo_testbench.Uart.Client.Laws.{gb_uart_read_large}
use demo_testbench.Uart.Thread.Read.{read_step-encode, credit_step-read_step}

abbrev pub ring : ℕ → Cbuf
ring wr = record {
  wr_ptr = wr;
  rd_ptr = 2;
  size = 4;
  bytes = 9 ∷ 0 ∷ 0xfe ∷ 8 ∷ [];
  hint_max_read_size = 0;
  read_data_tmp_size = 0;
  read_data_tmp = none;
  hint_max_write_size = 0;
  write_data_tmp_size = 0;
  write_data_tmp = none;
}

pub ring-IsValid : (wr : ℕ) → 2 ≤ wr → wr ≤ 6 → IsValid (ring wr)
ring-IsValid wr lo hi = record {
  log_size = 2;
  is_power = refl;
  small = omega arith;
  allocated = refl;
  wr_in = omega arith;
  rd_in = omega arith;
  level_in = ground arith;
  read_tmp = refl;
  write_tmp = refl;
}

-- Answers of one byte each, with a refusal and an empty answer before each.
abbrev answers : ℕ → List Event
answers zero = []
answers (suc n) = again no_time ∷ give 0 no_time ∷ give 1 no_time ∷ answers n

answers-IsReady : (n : ℕ) → IsReady n (answers n)
answers-IsReady zero = tt
answers-IsReady (suc n) = answers-IsReady n

abbrev pub line : List ℕ → List Event → ℕ → Line
line pending reads writes = record {
  pending = pending;
  sent = 5 ∷ [];
  reads = reads;
  writes = answers writes;
}

-- An empty input ring when `wr` is 2, and two words to send.
abbrev pub session : ℕ → Line → Uart
session wr l = record {
  line = l;
  speed = 3000000;
  buffer_size = 32768;
  input_buffer = ring wr;
  output_buffer = ring 4;
  debt = 2;
  credit = 3;
  reset_request = 0;
  term_request = 0;
}

-- A word, a credit message, and the marker as a word.
abbrev items : List Item
items = word 7 ∷ credit_given 3 5 ∷ word 0xfe ∷ []

check_timeout_example :
    let now : Timeval = record { sec = 1; usec = 0 } in
    let start : Timeval = record { sec = 0; usec = 999999 } in
    (late : Bool) × (check_timeout now start 1000 ≡ done late)
    × ((late ≡ true) ↔ (
        microseconds start + 1000 * 1000
        < microseconds now + (if ltb now.usec start.usec then 2000000 else 0)))
check_timeout_example =
    check_timeout_lem (record { sec = 1; usec = 0 }) (record { sec = 0; usec = 999999 }) 1000
      (omega arith)

read_blocking_example :
    let l = line (1 ∷ 2 ∷ 3 ∷ []) (answers 2) 0 in
    (reads' : List Event) × (read_blocking l no_time 2 0
      ≡ done (ok, take 2 l.pending, record l { pending = drop 2 l.pending; reads = reads' }))
    × IsReady 0 reads'
read_blocking_example =
    read_blocking_lem (line (1 ∷ 2 ∷ 3 ∷ []) (answers 2) 0) no_time 2 0 (omega arith) (omega arith)
      (answers-IsReady 2)

write_blocking_example :
    let l = line [] [] 2 in
    (writes' : List Event) × (write_blocking l no_time (1 ∷ 2 ∷ []) 0
      ≡ done (ok, record l { sent = l.sent ++ (1 ∷ 2 ∷ []); writes = writes' }))
    × IsReady 0 writes'
write_blocking_example =
    write_blocking_lem (line [] [] 2) no_time (1 ∷ 2 ∷ []) 0 (omega arith) (answers-IsReady 2)

update_debt-credit_message_example :
    (first : ℕ) × (second : ℕ) × (credit_message 0x3fff ≡ marker ∷ first ∷ second ∷ [])
    × (first % 2 ≡ 1)
    × (first < 256)
    × (second < 256)
    × ((update_debt (session 2 (line [] [] 0)) first second).debt ≡ add_size 2 0x3fff)
update_debt-credit_message_example =
    update_debt-credit_message (session 2 (line [] [] 0)) 0x3fff (omega arith)

-- The bytes of `items` but for the second half of the marker are in the buffer.
abbrev cut_session : Uart
cut_session = session 2 (line (0xfe ∷ 6 ∷ []) (answers 2) 0)

cut_items : (v : Uart) × (deliver cut_session items ≡ done v) × Delivered cut_session v items
cut_items =
    deliver-words_of items cut_session (tt, ((λ e. omega arith, omega arith), (tt, tt)))
      (ring-IsValid 2 (omega arith) (omega arith)) (omega arith) (omega arith)

parse_buffer-encode_example :
    (reads' : List Event) × (parse_buffer cut_session (7 ∷ 0xfe ∷ 3 ∷ 5 ∷ 0xfe ∷ [])
      ≡ done (with_line cut_items.0 (6 ∷ []) reads'))
parse_buffer-encode_example =
    parse_buffer-encode items cut_session cut_items.0 (7 ∷ 0xfe ∷ 3 ∷ 5 ∷ 0xfe ∷ []) (6 ∷ [])
      (tt, ((λ e. omega arith, omega arith), (tt, tt))) cut_items.1
      (
        omega arith,
        inr (omega arith, (omega arith, inr (omega arith, (omega arith, inl (omega arith, refl))))),
      )
      refl (answers-IsReady 2)

abbrev pub zeros : List ℕ
zeros = tabulate 256 (λ _. zero)

write_step-encode_example :
    let u = session 2 (line [] [] 512) in
    (v : Uart) × (write_step u zeros ≡ done v) × Wrote u v (tranche_size u) 0
write_step-encode_example =
    write_step-encode (session 2 (line [] [] 512)) zeros 0
      (ring-IsValid 4 (omega arith) (omega arith)) (omega arith) (omega arith)
      (length-tabulate 256 (λ (_ : ℕ). zero)) (answers-IsReady 512)

-- The terminal gives 4 bytes, the last of which is the first of a doubled marker.
abbrev read_items : List Item
read_items = word 7 ∷ word 8 ∷ word 9 ∷ word 0xfe ∷ []

abbrev read_session : Uart
read_session =
    record (session 2 (line (7 ∷ 8 ∷ 9 ∷ 0xfe ∷ 0xfe ∷ 6 ∷ []) (give 40 no_time ∷ answers 2) 0)) {
      credit = 20;
    }

read_step-encode_example :
    (v : Uart) × (read_step read_session ≡ done v)
    × (v.line.pending ≡ 6 ∷ [])
    × Delivered read_session v read_items
read_step-encode_example =
    read_step-encode read_items read_session 40 no_time (answers 2) (6 ∷ [])
      (ring-IsValid 2 (omega arith) (omega arith)) (omega arith) (omega arith)
      (tt, (tt, (tt, (tt, tt)))) refl refl
      (
        omega arith,
        inr (
          omega arith,
          (
            omega arith,
            inr (
              omega arith,
              (omega arith, inr (omega arith, (omega arith, inl (omega arith, refl)))),
            ),
          ),
        ),
      )
      (omega arith) (answers-IsReady 2)

-- The input ring is full, and a word arrives.
abbrev slow_session : Uart
slow_session = session 6 (line (7 ∷ []) (give 1 no_time ∷ []) 3)

credit_step-read_step_example :
    (v : Uart) × (credit_step slow_session ≡ done v)
    × (v.credit ≡ 3 + uart_max_tranche)
    × (v.line.sent ≡ 5 ∷ credit_message uart_max_tranche)
    × (read_step v ≡ abort)
credit_step-read_step_example =
    credit_step-read_step slow_session 7 [] 0 no_time [] 0
      (ring-IsValid 6 (omega arith) (omega arith)) (full_level) (omega arith) (omega arith)
      (answers-IsReady 3) refl (λ e. omega arith) refl
  where
    full_level : fill_level (ring 6) ≡ 4
    full_level = omega (arith, fill_level_lem (ring-IsValid 6 (omega arith) (omega arith)))

gb_uart_read_large_example :
    gb_uart_read (session 4 (line [] [] 0)) 0 0x80000000 zeros 7
    ≡ done (failed, zeros, 7, session 4 (line [] [] 0))
gb_uart_read_large_example =
    gb_uart_read_large (session 4 (line [] [] 0)) 0x80000000 zeros 7
      (ring-IsValid 4 (omega arith) (omega arith)) (omega arith) (omega arith) (omega arith)
