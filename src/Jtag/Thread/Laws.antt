-- ===== src/Jtag/Thread/Laws.antt =====
-- What a pass of the communication thread does to the two buffers.
use native.Mathlib.Nat.{div-le_self}
use demo_testbench.Base.{
  ℕ, zero, suc, ◌-◌, ◌*◌, ◌/◌, ◌%◌, ◌^◌, ◌≤◌, ◌<◌, ◌==◌, min, ltb, leb, if◌then◌else◌,
}
use demo_testbench.Base.{done}
use demo_testbench.Base.{◌≡◌, refl, arith, false, ◌&&◌, ◌||◌, ◌⊎◌}
use demo_testbench.Cbuf.{fill_level, free_level}
use demo_testbench.Jtag.{Jtag, calc_payload_len, to_words, adjust_wanted}
use demo_testbench.Jtag.Words.{min_wsize, max_wsize}
use demo_testbench.Jtag.Words.Laws.{min_wsize_lem, max_wsize_lem}

to_words_lem :
    (u : Jtag) (bytes : ℕ)
    → 0 < u.target_word_width
    → bytes < 2 ^ 31
    → to_words u bytes ≡ done (bytes / u.target_word_width)
unfolding to_words
to_words_lem u bytes pos small =
    let nonzero : (u.target_word_width == 0) ≡ false = ground arith in
    let same : bytes / u.target_word_width % 2 ^ 32 ≡ bytes / u.target_word_width =
      omega (arith, div-le_self bytes u.target_word_width) in
    rw (nonzero, same) refl

-- With words of a width above 0 and buffers whose levels are below 2^31 bytes, as many words are
-- written as the write buffer has whole words, and as many are read as the read buffer has room for,
-- but of neither more than are wanted.
pub calc_payload_len_lem :
    (u : Jtag) (wanted : ℕ)
    → 0 < u.target_word_width
    → wanted < 2 ^ 31
    → fill_level u.write_buf < 2 ^ 31
    → free_level u.read_buf < 2 ^ 31
    → let wr = min (fill_level u.write_buf / u.target_word_width) wanted in
      let rd = min (free_level u.read_buf / u.target_word_width) wanted in
      calc_payload_len u wanted ≡ done ((if ltb rd wr then wr else rd), wr, rd)
unfolding calc_payload_len
calc_payload_len_lem u wanted pos hw hwr hrd =
    let a = fill_level u.write_buf / u.target_word_width in
    let b = free_level u.read_buf / u.target_word_width in
    let ha : a < 2 ^ 31 = omega (arith, div-le_self (fill_level u.write_buf) u.target_word_width) in
    let hb : b < 2 ^ 31 = omega (arith, div-le_self (free_level u.read_buf) u.target_word_width) in
    let m : ℕ = if ltb b a then a else b in
    let hm : m < 2 ^ 31 = ground arith in
    let p = min wanted m in
    let hp : p < 2 ^ 31 = omega arith in
    let e1 : p ≡ (if ltb (min b wanted) (min a wanted) then min a wanted else min b wanted) =
      ground arith in
    let e2 : min a p ≡ min a wanted = ground arith in
    let e3 : min b p ≡ min b wanted = ground arith in
    rw
      (
        to_words_lem u (fill_level u.write_buf) pos hwr,
        to_words_lem u (free_level u.read_buf) pos hrd,
        max_wsize_lem a b ha hb,
        min_wsize_lem wanted m hw hm,
        min_wsize_lem a p ha hp,
        min_wsize_lem b p hb hp,
      )
      (λ i. done (e1 i, e2 i, e3 i))

-- What a number of words becomes between the bounds that a width of `width` bytes gives.
clamped :
    (factor min_wanted largest : ℕ)
    → factor < 2 ^ 31
    → min_wanted < 2 ^ 31
    → largest < 2 ^ 31
    → let next = min_wsize (max_wsize min_wanted (min_wsize factor largest)) 15000 in
      (next ≤ 15000) × (min min_wanted 15000 ≤ next) × ((next ≤ min_wanted) ⊎ (next ≤ largest))
clamped factor min_wanted largest hf hm hl =
    let small = min factor largest in
    let m : ℕ = if ltb small min_wanted then min_wanted else small in
    rw
      (
        min_wsize_lem factor largest hf hl,
        max_wsize_lem min_wanted small hm (omega arith),
        min_wsize_lem m 15000 (ground arith) (omega arith),
      )
      (ground arith)

largest_small : (width : ℕ) → width < 4 → 2 ^ (width * 8) - 2 < 2 ^ 31
largest_small zero h = omega arith
largest_small (suc zero) h = omega arith
largest_small (suc (suc zero)) h = omega arith
largest_small (suc (suc (suc zero))) h = omega arith
largest_small (suc (suc (suc (suc w)))) h = absurd (omega arith)

pub adjust_wanted_narrow :
    (width min_wanted wanted wr_words rd_words acked received : ℕ)
    → min_wanted < 2 ^ 31
    → wanted < 2 ^ 30
    → width < 4
    → (next : ℕ) × (adjust_wanted width min_wanted wanted wr_words rd_words acked received
        ≡ done next)
      × (next ≤ 15000)
      × (min min_wanted 15000 ≤ next)
      × ((next ≤ min_wanted) ⊎ (next ≤ 2 ^ (width * 8) - 2))
unfolding adjust_wanted
adjust_wanted_narrow width min_wanted wanted wr_words rd_words acked received hm hw narrow =
    let factor : ℕ =
      if ltb (9 * wr_words) (10 * acked) || leb (9 * rd_words) (10 * received)
      then wanted * 3 / 2 % 2 ^ 32
      else if leb (2 * acked) wr_words && leb (2 * received) rd_words
      then wanted * 3 / 10
      else wanted in
    let hf : factor < 2 ^ 31 = ground arith in
    let shift : leb 32 (width * 8) ≡ false = ground arith in
    let (most, least, says) =
      clamped factor min_wanted (2 ^ (width * 8) - 2) hf hm (largest_small width narrow) in
    rw shift (_, refl, most, least, says)
