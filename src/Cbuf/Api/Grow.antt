-- ===== src/Cbuf/Api/Grow.antt =====
-- The size that `_cbuf_calc_bufsize` gives a temporary buffer.
use native.Mathlib.Nat.{pow-suc, pow-le-pow_right}
use native.Mathlib.Decide.{dec_lt}
use demo_testbench.Base.{ℕ, zero, suc, ◌+◌, ◌/◌, ◌^◌, ◌≤◌, ◌<◌, ltb, leb, ◌==◌, min}
use demo_testbench.Base.{done, ◌≡◌, refl, ap, true, arith, Bool-cases, inl, inr, lt→ltb}
use demo_testbench.Cbuf.Api.{log2_loop, shift_one, calc_bufsize, new_tmp_size}

-- The loop adds the position of the highest one to its counter: it is the binary logarithm.
pub log2_loop_bounds :
    (rounds x acc : ℕ)
    → 0 < x
    → x < 2 ^ rounds
    → (k : ℕ) × (log2_loop rounds x acc ≡ acc + k) × (2 ^ k ≤ x) × (x < 2 ^ suc k) × (k < rounds)
unfolding log2_loop
log2_loop_bounds zero x acc h lt = absurd (omega arith)
log2_loop_bounds (suc rounds) x acc h lt = elim (Bool-cases (x / 2 == 0)) [
  | inl stop ↦ rw stop (0, ground arith, omega arith, ground arith, omega arith)
  | inr more ↦
      let (k, e, lo, hi, r) =
        log2_loop_bounds rounds (x / 2) (acc + 1) (ground (arith, more))
          (omega (arith, pow-suc 2 rounds)) in
      rw (more, e)
        (
          suc k,
          omega arith,
          omega (arith, pow-suc 2 k),
          omega (arith, pow-suc 2 k, pow-suc 2 (suc k)),
          omega arith,
        )
]

exponent_small : (k : ℕ) → 2 ^ k < 2 ^ 30 → k < 30
exponent_small k h = elim (dec_lt k 30) [
  | yes p ↦ p
  | no p ↦
      let le : 2 ^ 30 ≤ 2 ^ k =
        pow-le-pow_right {n = 2} (omega arith) {i = 30} {j = k} (omega arith) in
      absurd (omega (arith, le))
]

calc_bufsize_of_log2 :
    (size_req size_max k : ℕ)
    → log2_loop 64 size_req 0 ≡ 0 + k
    → k < 30
    → calc_bufsize size_req size_max ≡ done (min size_max (2 ^ suc k))
unfolding calc_bufsize shift_one
calc_bufsize_of_log2 size_req size_max k e small =
    let next : log2_loop 64 size_req 0 + 1 ≡ suc k = omega arith in
    let defined : ltb (suc k) 31 ≡ true = lt→ltb (suc k) 31 (omega arith) in
    rw (next, defined) (ap done (ground arith))

-- For a request below 2^30 the shift is defined, and the new size is the next power of two above
-- the request, or the maximum if that is smaller.
pub calc_bufsize_lem :
    (size_req size_max : ℕ)
    → 0 < size_req
    → size_req < 2 ^ 30
    → (k : ℕ) × (calc_bufsize size_req size_max ≡ done (min size_max (2 ^ suc k)))
      × (2 ^ k ≤ size_req)
      × (size_req < 2 ^ suc k)
calc_bufsize_lem size_req size_max h lt =
    let (k, e, lo, hi, r) = log2_loop_bounds 64 size_req 0 h (omega arith) in
    (k, calc_bufsize_of_log2 size_req size_max k e (exponent_small k (omega arith)), lo, hi)

-- So the temporary buffer has room for the request, and a request within the ring is enough.
pub new_tmp_size_lem :
    (hint n size : ℕ)
    → 0 < n
    → n < 2 ^ 30
    → n ≤ size
    → (new_size : ℕ) × (new_tmp_size hint n size ≡ done new_size) × (n ≤ new_size)
unfolding new_tmp_size
new_tmp_size_lem hint n size h lt le = elim (Bool-cases (leb n hint)) [
  | inl fits ↦ rw fits (hint, refl, ground (arith, fits))
  | inr more ↦
      let (k, e, lo, hi) = calc_bufsize_lem n size h lt in rw (more, e) (_, refl, omega arith)
]
