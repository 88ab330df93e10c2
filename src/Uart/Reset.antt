-- ===== src/Uart/Reset.antt =====
-- How the UART backend resets its session, and how it finds the speed of the line when it opens.
pub mod Laws
mod Tests
use demo_testbench.Base.{
  ℕ, ltb, ◌==◌, not, ◌&&◌, ◌||◌, if◌then◌else◌, List, [], ◌∷◌, length, take, drop, Bool, true,
  false, Option, none, some,
}
use demo_testbench.Base.{Outcome, done, hang, ◌>>=◌, ◌>>◌, assert_that, Status, ok, failed, is_ok}
use demo_testbench.Cbuf.{fill_level, discard}
use demo_testbench.Uart.{
  Uart, marker, uart_max_tranche, reset_com, send_credit, receive, receive_byte, update_debt,
}
use demo_testbench.Uart.Serial.{Event, granted}

-- The loop that reads until nothing comes, 16 bytes at a time.
pub drain_loop : List Event → List ℕ → Outcome (List ℕ × List Event)
drain_loop [] pending = hang
drain_loop (e ∷ es) pending =
    let n = granted e 16 in
    let rest = drain_loop es (drop n pending) in
    if ltb 0 (length (take n pending)) then rest else done (drop n pending, es)

pub drain : Uart → Outcome Uart
unfolding drain_loop
drain u = drain_loop u.line.reads u.line.pending >>= λ (pending, es).
    done (record u { line = record (u.line) { pending = pending; reads = es } })

-- Both rings are emptied.
pub clear : Uart → Outcome Uart
clear u =
    let (s, input) = discard u.input_buffer (fill_level u.input_buffer) in
    let (s', output) = discard u.output_buffer (fill_level u.output_buffer) in
    assert_that (is_ok s)
    >> (assert_that (is_ok s') >> done (record u { input_buffer = input; output_buffer = output }))

pub take_debt : Uart → ℕ → ℕ → ℕ → Outcome (Status × Uart)
take_debt u first second third =
    assert_that (first == marker) >> done (ok, update_debt u second third)

-- The credit message of the logic, behind a trash byte perhaps. `read_blocking` ends with `ok` only if
-- it has read three bytes.
pub read_debt : Status × List ℕ × Uart → Outcome (Status × Uart)
unfolding take_debt
read_debt (s, a ∷ b ∷ c ∷ [], u) =
    assert_that (is_ok s)
    >> (if a == marker then take_debt u a b c else receive_byte u >>= λ (d, u'). take_debt u' b c d)
read_debt (s, got, u) = assert_that (is_ok s) >> hang

-- The part of `reset` behind the control messages.
pub restart : Uart → Outcome (Status × Uart)
unfolding clear read_debt
restart u = clear u >>= λ u1.
    send_credit (record u1 { credit = uart_max_tranche; debt = 0 }) uart_max_tranche >>= λ (s, u2).
    receive u2 3 >>= read_debt

pub reset : Uart → Outcome (Status × Uart)
unfolding drain restart
reset u = reset_com u 1 >>= λ (s, u1).
    if not (is_ok s)
    then done (failed, u1)
    else drain u1 >>= λ u2.
        reset_com u2 0 >>= λ (s', u3). if not (is_ok s') then done (failed, u3) else restart u3

-- What the first read at a speed gives: a timeout, or what stands in the two bytes then.
pub data Probe : Type 0 where
  timed_out : Probe
  two_bytes : ℕ → ℕ → Probe

pub is_marked : Probe → Bool
is_marked timed_out = false
is_marked (two_bytes a b) = not (not (a == marker) && not (b == marker))

-- The speeds that the autodetection tries, up to the 0 that ends them.
abbrev pub autodetect_candidates : List ℕ
autodetect_candidates =
    4000000 ∷ 3000000 ∷ 2000000 ∷ 1000000 ∷ 500000 ∷ 230400 ∷ 115200 ∷ 57600 ∷ 38400 ∷ 19200 ∷ 9600
    ∷ 0 ∷ []

-- The speeds that `speed_lookup` has a constant for.
abbrev pub known_speeds : List ℕ
known_speeds =
    50 ∷ 75 ∷ 110 ∷ 134 ∷ 150 ∷ 200 ∷ 300 ∷ 600 ∷ 1200 ∷ 1800 ∷ 2400 ∷ 4800 ∷ 9600 ∷ 19200 ∷ 38400
    ∷ 57600 ∷ 115200 ∷ 230400 ∷ 460800 ∷ 500000 ∷ 576000 ∷ 921600 ∷ 1000000 ∷ 1152000 ∷ 1500000
    ∷ 2000000 ∷ 2500000 ∷ 3000000 ∷ 3500000 ∷ 4000000 ∷ []

pub is_known : List ℕ → ℕ → Bool
is_known [] speed = false
is_known (s ∷ speeds) speed = (s == speed) || is_known speeds speed

-- A round of the loop at the speed that `autodetect_try` points to, and those that follow; none is left
-- at a 0.
pub autodetect : (ℕ → Probe) → List ℕ → Option ℕ
autodetect probe [] = none
autodetect probe (speed ∷ []) = if is_marked (probe speed) then some speed else none
autodetect probe (speed ∷ next ∷ more) =
    let rest = autodetect probe (next ∷ more) in
    if is_marked (probe speed) then some speed else if next == 0 then none else rest

-- The speed that a line is opened at, if its terminal takes all attributes; `none` where the speed asked
-- for is not known, or no speed works.
pub find_speed : (ℕ → Probe) → ℕ → Option ℕ
unfolding autodetect
find_speed probe speed =
    if not (is_known known_speeds speed)
    then none
    else if is_marked (probe speed)
    then some speed
    else autodetect probe autodetect_candidates
