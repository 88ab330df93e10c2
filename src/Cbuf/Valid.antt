-- ===== src/Cbuf/Valid.antt =====
-- The invariant of `struct cbuf`, and its levels as arithmetic.
use native.Mathlib.Nat.{pow-suc, mod-eq_of_lt, mod-eq-sub-mod, one-le-pow}
use native.Mathlib.Decide.{dec_lt}
use demo_testbench.Base.{ℕ, suc, ◌+◌, ◌-◌, ◌*◌, ◌%◌, ◌^◌, ◌≤◌, ◌<◌, bit_xor, ltb, leb}
use demo_testbench.Base.{if◌then◌else◌, add_size, sub_size, ◌==◌, true, ◌≡◌, ◌∙◌}
use demo_testbench.Base.{Option, none, some, List, length, arith, ◌↔◌}
use demo_testbench.Base.Bits.{bit_and_mask, bit_xor_flip, Flips}
use demo_testbench.Cbuf.{
  Cbuf, masked, ptr_add, is_empty, is_full, fill_level, free_level, masked_level,
}

-- A temporary buffer is as large as its size field says, and a null pointer has size 0.
abbrev pub TmpFits : ℕ → Option (List ℕ) → Type 0
TmpFits n none = n ≡ 0
TmpFits n (some block) = length block ≡ n

-- How far the write pointer is ahead of the read pointer; both go round at `2 * size`.
abbrev pub ahead : ℕ → ℕ → ℕ → ℕ
ahead size wr rd = if leb rd wr then wr - rd else wr + 2 * size - rd

-- `x` reduced once, for an `x` below twice the bound.
abbrev pub wrap : ℕ → ℕ → ℕ
wrap bound x = if ltb x bound then x else x - bound

pub record IsValid (b : Cbuf) : Type 0 where
  pub log_size : ℕ
  pub is_power : b.size ≡ 2 ^ log_size
  pub small : b.size ≤ 2 ^ 62
  pub allocated : length b.bytes ≡ b.size
  pub wr_in : b.wr_ptr < 2 * b.size
  pub rd_in : b.rd_ptr < 2 * b.size
  pub level_in : ahead b.size b.wr_ptr b.rd_ptr ≤ b.size
  pub read_tmp : TmpFits b.read_data_tmp_size b.read_data_tmp
  pub write_tmp : TmpFits b.write_data_tmp_size b.write_data_tmp

mod_once : (x s : ℕ) → x < 2 * s → x % s ≡ wrap s x
mod_once x s h = elim (dec_lt x s) [
  | yes p ↦ ground (arith, mod-eq_of_lt p)
  | no p ↦
      let le : s ≤ x = omega arith in
      let lt : x - s < s = omega arith in ground (arith, mod-eq-sub-mod le, mod-eq_of_lt lt)
]

module _ {b : Cbuf} (v : IsValid b) where
  pub size_pos : 0 < b.size
  size_pos = omega (arith, v.is_power, one-le-pow v.log_size 2 (omega arith))

  pub masked_lem : (x : ℕ) → x < 2 * b.size → masked b x ≡ wrap b.size x
  masked_lem x h =
      let mask : sub_size b.size 1 ≡ 2 ^ v.log_size - 1 =
        omega (arith, v.is_power, v.small, size_pos) in
      rw mask (bit_and_mask v.log_size x ∙ rw (← v.is_power) (mod_once x b.size h))

  pub ptr_add_lem :
      (x n : ℕ) → x < 2 * b.size → n ≤ b.size → ptr_add b x n ≡ wrap (2 * b.size) (x + n)
  unfolding ptr_add
  ptr_add_lem x n hx hn =
      let sum : add_size x n ≡ x + n = omega (arith, v.small) in
      let mask : sub_size (2 * b.size % 2 ^ 64) 1 ≡ 2 ^ suc v.log_size - 1 =
        omega (arith, v.is_power, v.small, size_pos, pow-suc 2 v.log_size) in
      let twice : 2 ^ suc v.log_size ≡ 2 * b.size =
        omega (arith, v.is_power, pow-suc 2 v.log_size) in
      rw (sum, mask)
        (bit_and_mask (suc v.log_size) (x + n)
          ∙ rw twice (mod_once (x + n) (2 * b.size) (omega arith)))

  pub flipped : bit_xor b.rd_ptr b.size ≡ wrap (2 * b.size) (b.rd_ptr + b.size)
  flipped =
      let flips : Flips b.rd_ptr b.size =
        rw v.is_power (bit_xor_flip v.log_size b.rd_ptr (rw (← v.is_power) v.rd_in)) in
      ground (arith, flips.0, flips.1, v.rd_in)

  -- The level is the distance of the two pointers, going round at twice the size.
  pub fill_level_lem : fill_level b ≡ ahead b.size b.wr_ptr b.rd_ptr
  unfolding fill_level
  fill_level_lem =
      rw (flipped, masked_lem b.wr_ptr v.wr_in, masked_lem b.rd_ptr v.rd_in)
        (ground (arith, v.wr_in, v.rd_in, v.level_in, v.small))

  pub free_level_lem : free_level b + ahead b.size b.wr_ptr b.rd_ptr ≡ b.size
  unfolding free_level
  free_level_lem = rw fill_level_lem (omega (arith, v.level_in, v.small))

  -- `is_empty` and `is_full` say that the level is 0, and the size.
  pub is_empty_lem : (is_empty b ≡ true) ↔ (fill_level b ≡ 0)
  unfolding is_empty
  is_empty_lem = rw fill_level_lem (ground (arith, v.wr_in, v.rd_in))

  pub is_full_lem : (is_full b ≡ true) ↔ (fill_level b ≡ b.size)
  unfolding is_full
  is_full_lem = rw (fill_level_lem, flipped) (ground (arith, v.wr_in, v.rd_in, size_pos))

  -- The level by the masked pointers alone is 0 on a full ring.
  pub masked_level_lem :
      masked_level b
      ≡ (if ahead b.size b.wr_ptr b.rd_ptr == b.size then 0 else ahead b.size b.wr_ptr b.rd_ptr)
  masked_level_lem =
      rw (masked_lem b.wr_ptr v.wr_in, masked_lem b.rd_ptr v.rd_in)
        (ground (arith, v.wr_in, v.rd_in, v.level_in, v.small, size_pos))

  pub is_full-ahead : is_full b ≡ (ahead b.size b.wr_ptr b.rd_ptr == b.size)
  unfolding is_full
  is_full-ahead = rw flipped (ground (arith, v.wr_in, v.rd_in, v.level_in, size_pos))
