-- ===== src/Base/Bits.antt =====
-- Masks, single bits and powers of two, at every width: what `& (2^k - 1)`, `^ 2^k` and
-- `n & (n - 1)` are as arithmetic.
use Prim.Native.Nat.{ℕ, zero, suc, ◌+◌, ◌-◌, ◌*◌, ◌/◌, ◌%◌, ◌^◌, ◌≤◌, ◌<◌, min, max}
use Prim.Native.Nat.{digits, bitwise, differ, bit_and, bit_or, bit_xor}
use Prim.Native.Nat.{bit_and-bitwise, bit_or-bitwise, bit_xor-bitwise}
use mathlib.Core.Path.{◌≡◌, refl, ap, ◌∙◌}
use native.Mathlib.Nat.{pow-suc, one-le-pow, mod_self}
use native.Mathlib.Decide.{dec_lt}
use native.Mathlib.Omega.{arith}

-- Fuel past the first operand changes nothing, so the recursion on fuel is one on halves.
module _ (z : ℕ → ℕ) (f : ℕ → ℕ → ℕ) where
  digits-stable : (p q x y : ℕ) → x ≤ p → x ≤ q → digits z f p x y ≡ digits z f q x y
  digits-stable zero zero zero y hp hq = refl
  digits-stable zero (suc q) zero y hp hq = refl
  digits-stable (suc p) zero zero y hp hq = refl
  digits-stable (suc p) (suc q) zero y hp hq = refl
  digits-stable zero q (suc x) y hp hq = absurd (omega arith)
  digits-stable (suc p) zero (suc x) y hp hq = absurd (omega arith)
  digits-stable (suc p) (suc q) (suc x) y hp hq =
      ap (λ t. t * 2 + f (suc x % 2) (y % 2))
        (digits-stable p q (suc x / 2) (y / 2) (omega arith) (omega arith))

  bitwise-halves :
      (x y : ℕ)
      → bitwise z f (suc x) y ≡ bitwise z f (suc x / 2) (y / 2) * 2 + f (suc x % 2) (y % 2)
  bitwise-halves x y =
      ap (λ t. t * 2 + f (suc x % 2) (y % 2))
        (digits-stable x (suc x / 2) (suc x / 2) (y / 2) (omega arith) (omega arith))

pub bit_and-halves : (x y : ℕ) → bit_and x y ≡ bit_and (x / 2) (y / 2) * 2 + min (x % 2) (y % 2)
bit_and-halves zero y = omega (arith, bit_and-bitwise 0 y, bit_and-bitwise 0 (y / 2))
bit_and-halves (suc x) y = omega (
  arith,
  bitwise-halves (λ _. 0) min x y,
  bit_and-bitwise (suc x) y,
  bit_and-bitwise (suc x / 2) (y / 2),
)

pub bit_or-halves : (x y : ℕ) → bit_or x y ≡ bit_or (x / 2) (y / 2) * 2 + max (x % 2) (y % 2)
bit_or-halves zero y = omega (arith, bit_or-bitwise 0 y, bit_or-bitwise 0 (y / 2))
bit_or-halves (suc x) y = omega (
  arith,
  bitwise-halves (λ b. b) max x y,
  bit_or-bitwise (suc x) y,
  bit_or-bitwise (suc x / 2) (y / 2),
)

pub bit_xor-halves : (x y : ℕ) → bit_xor x y ≡ bit_xor (x / 2) (y / 2) * 2 + differ (x % 2) (y % 2)
bit_xor-halves zero y = omega (arith, bit_xor-bitwise 0 y, bit_xor-bitwise 0 (y / 2))
bit_xor-halves (suc x) y = omega (
  arith,
  bitwise-halves (λ b. b) differ x y,
  bit_xor-bitwise (suc x) y,
  bit_xor-bitwise (suc x / 2) (y / 2),
)

mod-mul_two : (x p : ℕ) → 0 < p → x % (2 * p) ≡ x / 2 % p * 2 + x % 2
mod-mul_two x p h = grind arith

pub bit_and-zero : (n x : ℕ) → x ≤ n → bit_and x 0 ≡ 0
bit_and-zero n zero h = bit_and-bitwise 0 0
bit_and-zero zero (suc x) h = absurd (omega arith)
bit_and-zero (suc n) (suc x) h =
    omega (arith, bit_and-halves (suc x) 0, bit_and-zero n (suc x / 2) (omega arith))

bit_and_self : (n x : ℕ) → x ≤ n → bit_and x x ≡ x
bit_and_self n zero h = bit_and-bitwise 0 0
bit_and_self zero (suc x) h = absurd (omega arith)
bit_and_self (suc n) (suc x) h =
    omega (arith, bit_and-halves (suc x) (suc x), bit_and_self n (suc x / 2) (omega arith))

mask_step :
    (x p : ℕ) → 0 < p → bit_and (x / 2) (p - 1) ≡ x / 2 % p → bit_and x (2 * p - 1) ≡ x % (2 * p)
mask_step x p h ih = ground (arith, bit_and-halves x (2 * p - 1), mod-mul_two x p h)

-- A mask of `k` ones takes the remainder by `2 ^ k`.
pub bit_and_mask : (k x : ℕ) → bit_and x (2 ^ k - 1) ≡ x % 2 ^ k
bit_and_mask zero x = omega (arith, bit_and-zero x x (omega arith))
bit_and_mask (suc k) x =
    let twice : 2 ^ suc k ≡ 2 * 2 ^ k = omega (arith, pow-suc 2 k) in
    rw twice (mask_step x (2 ^ k) (one-le-pow k 2 (omega arith)) (bit_and_mask k (x / 2)))

-- Below `2 * p` an exclusive or with `p` goes half way round.
abbrev pub Flips : ℕ → ℕ → Type 0
Flips x p = (x < p → bit_xor x p ≡ x + p) × (p ≤ x → bit_xor x p ≡ x - p)

differ-zero : (x : ℕ) → differ x 0 ≡ x
differ-zero zero = refl
differ-zero (suc x) = refl

bit_xor-mul_two : (x p : ℕ) → bit_xor x (2 * p) ≡ bit_xor (x / 2) p * 2 + x % 2
bit_xor-mul_two x p =
    let even : 2 * p % 2 ≡ 0 = omega arith in
    let half : 2 * p / 2 ≡ p = omega arith in
    bit_xor-halves x (2 * p) ∙ rw (even, half, differ-zero (x % 2)) refl

flip_step : (x p : ℕ) → Flips (x / 2) p → Flips x (2 * p)
flip_step x p ih = (
  λ h. omega (arith, bit_xor-mul_two x p, ih.0 (omega arith)),
  λ h. omega (arith, bit_xor-mul_two x p, ih.1 (omega arith)),
)

pub bit_xor_flip : (k x : ℕ) → x < 2 * 2 ^ k → Flips x (2 ^ k)
bit_xor_flip zero zero h = (λ _. refl, λ p. absurd (omega arith))
bit_xor_flip zero (suc zero) h = (λ p. absurd (omega arith), λ _. refl)
bit_xor_flip zero (suc (suc x)) h = absurd (omega arith)
bit_xor_flip (suc k) x h =
    let twice : 2 ^ suc k ≡ 2 * 2 ^ k = omega (arith, pow-suc 2 k) in
    rw twice (flip_step x (2 ^ k) (bit_xor_flip k (x / 2) (omega arith)))

-- `n & (n - 1)` is 0 at powers of two, and at no other positive number.
pub bit_and-pow : (k : ℕ) → bit_and (2 ^ k) (2 ^ k - 1) ≡ 0
bit_and-pow k = bit_and_mask k (2 ^ k) ∙ mod_self (2 ^ k)

pub pow_of_bit_and : (m n : ℕ) → n ≤ m → 0 < n → bit_and n (n - 1) ≡ 0 → (k : ℕ) × (n ≡ 2 ^ k)
pow_of_bit_and zero n h p e = absurd (omega arith)
pow_of_bit_and (suc m) n h p e = elim (dec_lt 1 n) [
  | no one ↦ (0, omega arith)
  | yes big ↦
      let ih =
        pow_of_bit_and m (n / 2) (omega arith) (omega arith)
          (ground (arith, bit_and-halves n (n - 1), bit_and_self (n / 2) (n / 2) (omega arith))) in
      (
        suc ih.0,
        ground (
          arith,
          ih.1,
          pow-suc 2 ih.0,
          bit_and-halves n (n - 1),
          bit_and_self (n / 2) (n / 2) (omega arith),
        ),
      )
]

bit_or-zero : (n x : ℕ) → x ≤ n → bit_or x 0 ≡ x
bit_or-zero n zero h = bit_or-bitwise 0 0
bit_or-zero zero (suc x) h = absurd (omega arith)
bit_or-zero (suc n) (suc x) h =
    omega (arith, bit_or-halves (suc x) 0, bit_or-zero n (suc x / 2) (omega arith))

bit_or-mul_two : (x y : ℕ) → bit_or (2 * x) y ≡ bit_or x (y / 2) * 2 + y % 2
bit_or-mul_two x y =
    let even : 2 * x % 2 ≡ 0 = omega arith in
    let half : 2 * x / 2 ≡ x = omega arith in
    bit_or-halves (2 * x) y ∙ rw (even, half) (omega arith)

-- A number below `2 ^ k` put under one shifted by `k`: the two are added.
pub bit_or_shifted : (k x y : ℕ) → y < 2 ^ k → bit_or (x * 2 ^ k) y ≡ x * 2 ^ k + y
bit_or_shifted zero x y h =
    let none : y ≡ 0 = omega arith in
    let same : x * 2 ^ 0 ≡ x = omega arith in
    rw (none, same) (omega (arith, bit_or-zero x x (omega arith)))
bit_or_shifted (suc k) x y h =
    let twice : x * 2 ^ suc k ≡ 2 * (x * 2 ^ k) =
      omega (arith, ap (λ (t : ℕ). x * t) (pow-suc 2 k)) in
    let half : y / 2 < 2 ^ k = omega (arith, pow-suc 2 k) in
    rw (twice, bit_or-mul_two (x * 2 ^ k) y, bit_or_shifted k x (y / 2) half) (omega arith)

-- An odd number from its half.
pub bit_or_one : (x : ℕ) → bit_or 1 (x * 2) ≡ 1 + x * 2
bit_or_one x = omega (arith, bit_or-halves 1 (x * 2), bit_or-bitwise 0 (x * 2 / 2))
