-- ===== src/Waits/Deadline.antt =====
-- The deadline of a blocking call with a timeout: `timespec_add_ns` of glip/src/util.h, and the number of
-- nanoseconds that the calls of all backends give it.
use demo_testbench.Base.{
  ℕ, zero, suc, ◌+◌, ◌-◌, ◌*◌, ◌%◌, ◌^◌, ◌≤◌, ◌<◌, leb, if◌then◌else◌, Outcome, done, hang, ◌>>=◌,
  ◌≡◌, refl, ap, ◌∙◌, arith, ◌↔◌, Bool-cases, inl, inr, true,
}

-- `struct timespec`
pub record Timespec : Type 0 where
  pub tv_sec : ℕ
  pub tv_nsec : ℕ

-- The loop of `__iter_div_u64_rem`, with the rounds that it may take: quotient and remainder.
pub iter_div : ℕ → ℕ → ℕ → ℕ → Outcome (ℕ × ℕ)
iter_div zero dividend divisor ret = hang
iter_div (suc fuel) dividend divisor ret =
    let rest = iter_div fuel (dividend - divisor) divisor ((ret + 1) % 2 ^ 32) in
    if leb divisor dividend then rest else done (ret, dividend)

abbrev pub nsec_per_sec : ℕ
nsec_per_sec = 1000000000

pub timespec_add_ns : ℕ → Timespec → ℕ → Outcome Timespec
unfolding iter_div
timespec_add_ns fuel a ns = iter_div fuel ((a.tv_nsec + ns) % 2 ^ 64) nsec_per_sec 0 >>= λ (q, r).
    done (record { tv_sec = a.tv_sec + q; tv_nsec = r })

-- `timespec_add_ns(&ts, timeout * 1000 * 1000)`: the product is an `unsigned int`.
pub deadline : ℕ → Timespec → ℕ → Outcome Timespec
unfolding timespec_add_ns
deadline fuel now timeout = timespec_add_ns fuel now (timeout * 1000 * 1000 % 2 ^ 32)

div_more :
    (fuel dividend ret next q r : ℕ)
    → leb 1000000000 dividend ≡ true
    → (ret + 1) % 2 ^ 32 ≡ next
    → iter_div fuel (dividend - 1000000000) 1000000000 next ≡ done (q, r)
    → iter_div (suc fuel) dividend 1000000000 ret ≡ done (q, r)
unfolding iter_div
div_more fuel dividend ret next q r a b c = rw (a, b) c

deadline_from :
    (fuel : ℕ) (now : Timespec) (timeout sum q r : ℕ)
    → (now.tv_nsec + timeout * 1000 * 1000 % 2 ^ 32) % 2 ^ 64 ≡ sum
    → iter_div fuel sum 1000000000 0 ≡ done (q, r)
    → deadline fuel now timeout ≡ done (record { tv_sec = now.tv_sec + q; tv_nsec = r })
unfolding deadline timespec_add_ns
deadline_from fuel now timeout sum q r a b = rw (a, b) refl

iter_div_lem :
    (fuel dividend ret : ℕ)
    → dividend < fuel * 1000000000
    → ret + fuel < 2 ^ 32
    → (q : ℕ) × (r : ℕ) × (iter_div fuel dividend 1000000000 ret ≡ done (ret + q, r))
      × (r < 1000000000)
      × (q * 1000000000 + r ≡ dividend)
unfolding iter_div
iter_div_lem zero dividend ret h small = absurd (omega arith)
iter_div_lem (suc fuel) dividend ret h small = elim (Bool-cases (leb 1000000000 dividend)) [
  | inl more ↦
      let le : 1000000000 ≤ dividend = ground (arith, more) in
      let next : (ret + 1) % 2 ^ 32 ≡ ret + 1 = omega arith in
      let (q, r, runs, less, sum) =
        iter_div_lem fuel (dividend - 1000000000) (ret + 1) (omega arith) (omega arith) in
      let one : (ret + 1) + q ≡ ret + (q + 1) = omega arith in
      (
        q + 1,
        r,
        div_more fuel dividend ret (ret + 1) (ret + (q + 1)) r more next
            (runs ∙ ap (λ k. done (k, r)) one),
        less,
        omega (arith, sum, le),
      )
  | inr last ↦
      let none : ret + 0 ≡ ret = omega arith in
      (0, dividend, rw (last, none) refl, ground (arith, last), omega arith)
]

-- With the time in a normal form and six rounds or more, the deadline is in a normal form, and later
-- than the time by the timeout in milliseconds, in nanoseconds modulo 2^32: by the timeout itself
-- exactly up to 4294 ms.
pub deadline_lem :
    (fuel : ℕ) (now : Timespec) (timeout : ℕ)
    → 6 ≤ fuel
    → fuel < 2 ^ 32
    → now.tv_nsec < 1000000000
    → timeout < 2 ^ 32
    → (at : Timespec) × (deadline fuel now timeout ≡ done at)
      × (at.tv_nsec < 1000000000)
      × (at.tv_sec * 1000000000 + at.tv_nsec
          ≡ now.tv_sec * 1000000000 + now.tv_nsec + timeout * 1000000 % 2 ^ 32)
      × ((at.tv_sec * 1000000000 + at.tv_nsec
            ≡ now.tv_sec * 1000000000 + now.tv_nsec + timeout * 1000000)
          ↔ (timeout ≤ 4294))
deadline_lem fuel now timeout rounds small normal wide =
    let ns = timeout * 1000 * 1000 % 2 ^ 32 in
    let same : timeout * 1000 * 1000 ≡ timeout * 1000000 = omega arith in
    let sum : (now.tv_nsec + ns) % 2 ^ 64 ≡ now.tv_nsec + ns = omega arith in
    let (q, r, runs, less, total) =
      iter_div_lem fuel (now.tv_nsec + ns) 0 (omega arith) (omega arith) in
    let zero_q : 0 + q ≡ q = omega arith in
    (
      record { tv_sec = now.tv_sec + q; tv_nsec = r },
      deadline_from fuel now timeout (now.tv_nsec + ns) q r sum
          (runs ∙ ap (λ k. done (k, r)) zero_q),
      less,
      omega (arith, total),
      (λ e. omega (arith, total, e), λ h. omega (arith, total, h)),
    )
