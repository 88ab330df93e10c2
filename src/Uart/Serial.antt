-- ===== src/Uart/Serial.antt =====
-- The blocking reads and writes on the terminal, `read_blocking` and `write_blocking`, and their
-- timeout. The terminal is outside: what its `read` and `write` calls answer is a list of events.
pub mod Timeout
pub mod Laws
use demo_testbench.Base.{ℕ, ◌+◌, ◌-◌, ◌*◌, ◌<◌, ltb, ◌==◌, if◌then◌else◌, min, Bool, true, false}
use demo_testbench.Base.{
  ◌%◌, ◌^◌, leb, fault, List, [], ◌∷◌, ◌++◌, length, take, drop, Outcome, done, hang, ◌>>=◌,
}
use demo_testbench.Base.{Status, ok, failed, etimedout}
use demo_testbench.Base.Int.{ℤ, pos, negsuc, ◌+ℤ◌, ◌-ℤ◌, ◌*ℤ◌, ltb_ℤ}

-- `struct timeval`
pub record Timeval : Type 0 where
  pub sec : ℕ
  pub usec : ℕ

-- `(signed) ms * 1000`, with `ms` cut to an `int` and an `int` product, which is undefined beyond 32
-- bits.
pub limit_int : ℕ → Outcome ℤ
limit_int ms =
    let low = ms % 2 ^ 32 in
    let neg = 2 ^ 32 - low in
    if leb low 2147483
    then done (pos (low * 1000))
    else if ltb low (2 ^ 31)
    then fault
    else if leb neg 2147483
    then done (negsuc (neg * 1000 - 1))
    else fault

-- `check_timeout`, true for -ETIMEDOUT, with the current time as an argument.
pub check_timeout : Timeval → Timeval → ℕ → Outcome Bool
unfolding limit_int
check_timeout now start ms =
    let sec = pos now.sec -ℤ pos start.sec in
    let usec = pos now.usec -ℤ pos start.usec in
    let borrow = ltb now.usec start.usec in
    let sec' = if borrow then sec +ℤ pos 1 else sec in
    let usec' = if borrow then usec +ℤ pos 1000000 else usec in
    limit_int ms >>= λ limit. done (ltb_ℤ limit (sec' *ℤ pos 1000000 +ℤ usec'))

-- What one call of `read` or `write` answers: it moves at most `n` bytes (which may be none), it
-- fails with EAGAIN, or with another error. The time is that of the check for a timeout after it.
pub data Event : Type 0 where
  give : ℕ → Timeval → Event
  again : Timeval → Event
  broken : Event

-- The terminal: bytes that wait to be read, bytes that were written, and the answers to come.
pub record Line : Type 0 where
  pub pending : List ℕ
  pub sent : List ℕ
  pub reads : List Event
  pub writes : List Event

abbrev pub granted : Event → ℕ → ℕ
granted (give k now) n = min k n
granted (again now) n = 0
granted broken n = 0

-- The check for a timeout at the end of a round.
pub expired : Timeval → ℕ → Event → Outcome Bool
expired start timeout (give k now) =
    if ltb 0 timeout then check_timeout now start timeout else done false
expired start timeout (again now) =
    if ltb 0 timeout then check_timeout now start timeout else done false
expired start timeout broken = done false

abbrev pub is_broken : Event → Bool
is_broken broken = true
is_broken _ = false

-- The loop of `read_blocking` with `left` bytes to go, and those read so far.
pub read_loop :
    Timeval → ℕ → List Event → List ℕ → ℕ → List ℕ → Outcome (Status × List ℕ × List ℕ × List Event)
read_loop start timeout [] pending left got = hang
read_loop start timeout (e ∷ es) pending left got =
    let new = take (granted e left) pending in
    let pending' = drop (granted e left) pending in
    let left' = left - length new in
    let rest = read_loop start timeout es pending' left' (got ++ new) in
    if is_broken e
    then done (failed, got, pending, es)
    else expired start timeout e >>= λ late.
        if late
        then done (etimedout, got ++ new, pending', es)
        else if left' == 0
        then done (ok, got ++ new, pending', es)
        else rest

-- `read_blocking`, with the bytes that it put into the buffer.
pub read_blocking : Line → Timeval → ℕ → ℕ → Outcome (Status × List ℕ × Line)
read_blocking line start n timeout =
    read_loop start timeout line.reads line.pending n [] >>= λ (s, got, pending', reads').
    done (s, got, record line { pending = pending'; reads = reads' })

-- The loop of `write_blocking` with the bytes still to go.
pub write_loop : Timeval → ℕ → List Event → List ℕ → List ℕ → Outcome (Status × List ℕ × List Event)
write_loop start timeout [] sent left = hang
write_loop start timeout (e ∷ es) sent left =
    let n = granted e (length left) in
    let sent' = sent ++ take n left in
    let rest = write_loop start timeout es sent' (drop n left) in
    if is_broken e
    then done (failed, sent, es)
    else expired start timeout e >>= λ late.
        if late
        then done (etimedout, sent', es)
        else if length (drop n left) == 0
        then done (ok, sent', es)
        else rest

pub write_blocking : Line → Timeval → List ℕ → ℕ → Outcome (Status × Line)
write_blocking line start xs timeout =
    write_loop start timeout line.writes line.sent xs >>= λ (s, sent', writes').
    done (s, record line { sent = sent'; writes = writes' })
