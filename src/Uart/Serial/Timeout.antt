-- ===== src/Uart/Serial/Timeout.antt =====
-- When `check_timeout` reports a timeout.
use demo_testbench.Base.{
  Bool, leb, done, refl, ◌%◌, ◌^◌, ◌≤◌, ℕ, ◌+◌, ◌*◌, ◌<◌, ltb, if◌then◌else◌, ◌≡◌, ◌↔◌, true, arith,
  Bool-cases, inl, inr,
}
use demo_testbench.Base.Int.{
  ℤ, pos, ◌+ℤ◌, ◌-ℤ◌, ◌*ℤ◌, +ℤ_parts, -ℤ_parts, *ℤ-pos_parts, ltb_ℤ, pos_part, neg_part,
}
use demo_testbench.Uart.Serial.{Timeval, check_timeout, limit_int}

abbrev pub microseconds : Timeval → ℕ
microseconds t = t.sec * 1000000 + t.usec

-- The test on a difference, read as an order of numbers.
elapsed_lem :
    (sec usec : ℤ) (limit : ℕ)
    → (ltb_ℤ (pos limit) (sec *ℤ pos 1000000 +ℤ usec) ≡ true)
      ↔ (limit + neg_part sec * 1000000 + neg_part usec < pos_part sec * 1000000 + pos_part usec)
elapsed_lem sec usec limit =
    ground (arith, +ℤ_parts (sec *ℤ pos 1000000) usec, *ℤ-pos_parts sec 1000000)

-- The comparison with a limit.
abbrev late_by : Timeval → Timeval → ℕ → Bool
late_by now start limit =
    let sec = pos now.sec -ℤ pos start.sec in
    let usec = pos now.usec -ℤ pos start.usec in
    let borrow = ltb now.usec start.usec in
    let sec' = if borrow then sec +ℤ pos 1 else sec in
    let usec' = if borrow then usec +ℤ pos 1000000 else usec in
    ltb_ℤ (pos limit) (sec' *ℤ pos 1000000 +ℤ usec')

late_by_lem :
    (now start : Timeval) (limit : ℕ)
    → (late_by now start limit ≡ true) ↔ (
        microseconds start + limit
        < microseconds now + (if ltb now.usec start.usec then 2000000 else 0))
late_by_lem now start limit = elim (Bool-cases (ltb now.usec start.usec)) [
  | inl borrow ↦
      let sec = pos now.sec -ℤ pos start.sec in
      let usec = pos now.usec -ℤ pos start.usec in
      let e = elapsed_lem (sec +ℤ pos 1) (usec +ℤ pos 1000000) limit in
      rw borrow (
        λ t. omega (
          arith,
          e.0 t,
          +ℤ_parts sec (pos 1),
          +ℤ_parts usec (pos 1000000),
          -ℤ_parts (pos now.sec) (pos start.sec),
          -ℤ_parts (pos now.usec) (pos start.usec),
        ),
        λ t. e.1 (
            omega (
              arith,
              t,
              +ℤ_parts sec (pos 1),
              +ℤ_parts usec (pos 1000000),
              -ℤ_parts (pos now.sec) (pos start.sec),
              -ℤ_parts (pos now.usec) (pos start.usec),
            )),
      )
  | inr plain ↦
      let sec = pos now.sec -ℤ pos start.sec in
      let usec = pos now.usec -ℤ pos start.usec in
      let e = elapsed_lem sec usec limit in
      rw plain (
        λ t. omega (
          arith,
          e.0 t,
          -ℤ_parts (pos now.sec) (pos start.sec),
          -ℤ_parts (pos now.usec) (pos start.usec),
        ),
        λ t. e.1 (
            omega (
              arith,
              t,
              -ℤ_parts (pos now.sec) (pos start.sec),
              -ℤ_parts (pos now.usec) (pos start.usec),
            )),
      )
]

check_timeout_from :
    (now start : Timeval) (ms : ℕ)
    → ms ≤ 2147483
    → check_timeout now start ms ≡ done (late_by now start (ms * 1000))
unfolding check_timeout limit_int
check_timeout_from now start ms few =
    let low : ms % 2 ^ 32 ≡ ms = omega arith in
    let short : leb ms 2147483 ≡ true = ground arith in rw (low, short) refl

-- For a timeout of at most 2147483 ms the check is defined, and reports a timeout exactly when
-- more than ms milliseconds have passed, with two seconds added where the microseconds of the
-- current time are below those of the start.
pub check_timeout_lem :
    (now start : Timeval) (ms : ℕ)
    → ms ≤ 2147483
    → (late : Bool) × (check_timeout now start ms ≡ done late)
      × ((late ≡ true) ↔ (
          microseconds start + ms * 1000
          < microseconds now + (if ltb now.usec start.usec then 2000000 else 0)))
check_timeout_lem now start ms few = (
  late_by now start (ms * 1000),
  check_timeout_from now start ms few,
  late_by_lem now start (ms * 1000),
)
