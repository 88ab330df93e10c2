-- ===== src/Cbuf/Copy.antt =====
-- The copies of `cbuf_write` and `cbuf_read`: they stay inside their objects, and every cell of
-- the result is known.
use demo_testbench.Base.{
  ◌++◌, splice-front, splice-concat, ◌∙◌, take_all, true, ap, ℕ, ◌+◌, ◌-◌, ◌≤◌, ◌<◌, ltb, leb,
  if◌then◌else◌, sub_size, add_size, int_size, int_size_lem, ◌^◌,
}
use demo_testbench.Base.{List, length, get_or, take, drop, splice, arith, ◌≡◌, refl, false}
use demo_testbench.Base.{length-splice, length-take, length-drop, get_or-splice, get_or-take}
use demo_testbench.Base.{get_or-drop, done, Bool-cases, inl, inr, ◌&&◌, le→leb}
use demo_testbench.Cbuf.{Cbuf, memcpy, write_bytes, read_bytes}
use demo_testbench.Cbuf.Valid.{IsValid, wrap, masked_lem}

-- How far `j` lies behind `at` on a circle of `size` cells.
abbrev pub behind : ℕ → ℕ → ℕ → ℕ
behind size at j = if leb at j then j - at else j + size - at

-- A copy of a whole array to the front of another that has room for it.
pub memcpy-front :
    (dst src : List ℕ)
    → length src ≤ length dst
    → memcpy dst 0 src 0 (length src) ≡ done (src ++ drop (length src) dst)
unfolding memcpy
memcpy-front dst src h =
    let in_dst : leb (length src) (length dst) ≡ true = ground arith in
    let in_src : leb (length src) (length src) ≡ true = ground arith in
    let zero_dst : 0 + length src ≡ length src = omega arith in
    rw (zero_dst, in_dst, in_src, take_all (length src) src (omega arith))
      (ap (λ l. done l) (splice-front dst src h))

-- A copy of a whole array into the middle of another.
pub memcpy-concat :
    (dst : List ℕ) (to : ℕ) (src : List ℕ) (n : ℕ)
    → length src ≡ n
    → to + n ≤ length dst
    → memcpy dst to src 0 n ≡ done (take to dst ++ (src ++ drop (to + n) dst))
unfolding memcpy
memcpy-concat dst to src n len h =
    let in_dst : leb (to + n) (length dst) ≡ true = ground arith in
    let in_src : leb n (length src) ≡ true = ground arith in
    let from_zero : 0 + n ≡ n = omega arith in
    rw (from_zero, in_dst, in_src, take_all n src (omega arith))
      (ap (λ l. done l)
        (splice-concat dst to src (omega arith)
          ∙ ap (λ k. take to dst ++ (src ++ drop (to + k) dst)) len))

-- A `memcpy` inside both objects is defined, and its cells are known.
pub record Copied (dst : List ℕ) (to : ℕ) (src : List ℕ) (from n : ℕ) (out : List ℕ) : Type 0 where
  pub runs : memcpy dst to src from n ≡ done out
  pub same_length : length out ≡ length dst
  pub cell :
      (j : ℕ)
      → get_or out j 0
        ≡ (if leb to j && ltb j (to + n) then get_or src (from + (j - to)) 0 else get_or dst j 0)

pub memcpy-Copied :
    (dst : List ℕ) (to : ℕ) (src : List ℕ) (from n : ℕ)
    → to + n ≤ length dst
    → from + n ≤ length src
    → Copied dst to src from n (splice dst to (take n (drop from src)))
memcpy-Copied dst to src from n fits_dst fits_src = record {
  runs = unfold memcpy in rw (le→leb _ _ fits_dst, le→leb _ _ fits_src) refl;
  same_length = length-splice dst to (take n (drop from src));
  cell = λ j. ground (
    arith,
    len,
    get_or-splice dst to (take n (drop from src)) j 0,
    get_or-take n (drop from src) (j - to) 0,
    get_or-drop from src (j - to) 0,
  );
}
  where
    len : length (take n (drop from src)) ≡ n
    len = omega (arith, length-take n (drop from src), length-drop from src)

-- `out` is the ring's memory after `n` bytes of `src` were put at the cells from `at` on,
-- going round at `size`.
pub record IsWritten (mem : List ℕ) (size at : ℕ) (src : List ℕ) (n : ℕ) (out : List ℕ)
    : Type 0 where
  pub same_length : length out ≡ length mem
  pub cell :
      (j : ℕ)
      → j < size
      → get_or out j 0
        ≡ (if ltb (behind size at j) n then get_or src (behind size at j) 0 else get_or mem j 0)

-- `cbuf_write` copies inside the array and inside the caller's data, in one piece or in two.
pub write_bytes-IsWritten :
    {b : Cbuf} (src : List ℕ) (n : ℕ)
    → IsValid b
    → n ≤ b.size
    → n ≤ length src
    → (out : List ℕ) × (write_bytes b src n ≡ done out)
      × IsWritten b.bytes b.size (wrap b.size b.wr_ptr) src n out
unfolding write_bytes
write_bytes-IsWritten {b} src n v hn hs =
    rw (masked_lem v b.wr_ptr v.wr_in) (elim (Bool-cases (leb (add_size at n) b.size)) [
      | inl one ↦
          let c = memcpy-Copied b.bytes at src 0 n (ground (arith, v)) (omega arith) in
          (
            _,
            rw one c.runs,
            record { same_length = c.same_length; cell = λ j h. ground (arith, c.cell j, v) },
          )
      | inr two ↦
          let c =
            memcpy-Copied b.bytes at src 0 size_at_end (ground (arith, v)) (ground (arith, v)) in
          let front = splice b.bytes at (take size_at_end src) in
          let d =
            memcpy-Copied front 0 src size_at_end (n - size_at_end)
              (ground (arith, v, c.same_length)) (ground (arith, v)) in
          (
            _,
            rw (two, end_lem, c.runs, start_lem two) d.runs,
            record {
              same_length = d.same_length ∙ c.same_length;
              cell = λ j h. ground (arith, d.cell j, c.cell j, v);
            },
          )
    ])
  where
    at : ℕ
    at = wrap b.size b.wr_ptr

    size_at_end : ℕ
    size_at_end = b.size - at

    end_lem : sub_size b.size at ≡ size_at_end
    end_lem = ground (arith, v)

    start_lem : leb (add_size at n) b.size ≡ false → sub_size n size_at_end ≡ n - size_at_end
    start_lem two = ground (arith, v)

-- `out` is the caller's array after the `n` bytes from `at` on were taken from the ring.
pub record IsTaken (mem : List ℕ) (size at n : ℕ) (dst out : List ℕ) : Type 0 where
  pub same_length : length out ≡ length dst
  pub cell :
      (i : ℕ)
      → get_or out i 0 ≡ (if ltb i n then get_or mem (wrap size (at + i)) 0 else get_or dst i 0)

-- Two pieces, one to the end of the ring and one from its start, make up the whole.
pub taken_in_two :
    (mem dst front out : List ℕ) (size at n i : ℕ)
    → at < size
    → size < at + n
    → n ≤ size
    → get_or front i 0
      ≡ (if leb 0 i && ltb i (0 + (size - at)) then get_or mem (at + (i - 0)) 0 else get_or dst i 0)
    → get_or out i 0 ≡ (
        if leb (size - at) i && ltb i (size - at + (n - (size - at)))
        then get_or mem (0 + (i - (size - at))) 0
        else get_or front i 0)
    → get_or out i 0 ≡ (if ltb i n then get_or mem (wrap size (at + i)) 0 else get_or dst i 0)
taken_in_two mem dst front out size at n i h1 h2 h3 c d = ground arith

-- `cbuf_read` copies out of the array and into the caller's, in one piece or in two.
pub read_bytes-IsTaken :
    {b : Cbuf} (dst : List ℕ) (n : ℕ)
    → IsValid b
    → n ≤ b.size
    → n ≤ 2 ^ 31
    → n ≤ length dst
    → (out : List ℕ) × (read_bytes b dst n ≡ done out)
      × IsTaken b.bytes b.size (wrap b.size b.rd_ptr) n dst out
unfolding read_bytes
read_bytes-IsTaken {b} dst n v hn few hs =
    rw (masked_lem v b.rd_ptr v.rd_in) (elim (Bool-cases (leb (add_size at n) b.size)) [
      | inl one ↦
          let c = memcpy-Copied dst 0 b.bytes at n (ground (arith, v)) (ground (arith, v)) in
          (
            _,
            rw one c.runs,
            record { same_length = c.same_length; cell = λ i. ground (arith, c.cell i, v) },
          )
      | inr two ↦
          let c =
            memcpy-Copied dst 0 b.bytes at size_to_end (ground (arith, v)) (ground (arith, v)) in
          let front = splice dst 0 (take size_to_end (drop at b.bytes)) in
          let d =
            memcpy-Copied front size_to_end b.bytes 0 (n - size_to_end)
              (ground (arith, v, c.same_length)) (ground (arith, v)) in
          (
            _,
            rw (two, end_lem two, c.runs, start_lem two) d.runs,
            record {
              same_length = d.same_length ∙ c.same_length;
              cell = λ i.
                  taken_in_two b.bytes dst front _ b.size at n i (ground (arith, v))
                    (ground (arith, v)) hn (c.cell i) (d.cell i);
            },
          )
    ])
  where
    at : ℕ
    at = wrap b.size b.rd_ptr

    size_to_end : ℕ
    size_to_end = b.size - at

    end_lem : leb (add_size at n) b.size ≡ false → int_size (sub_size b.size at) ≡ size_to_end
    end_lem two =
        let plain : sub_size b.size at ≡ size_to_end = ground (arith, v) in
        ap (λ k. int_size k) plain ∙ int_size_lem size_to_end (ground (arith, two, few, v))

    start_lem : leb (add_size at n) b.size ≡ false → sub_size n size_to_end ≡ n - size_to_end
    start_lem two = ground (arith, v)
