-- ===== src/Cbuf/Api/Reserve.antt =====
-- `cbuf_reserve`: where the pointer that it hands out points.
use demo_testbench.Base.{ℕ, ◌+◌, ◌^◌, ◌≤◌, ◌<◌, ltb, leb, add_size}
use demo_testbench.Base.{Option, none, some, List, length, true, false, Bool-cases, inl, inr}
use demo_testbench.Base.{done, ok, einval, enomem, ◌≡◌, refl, ◌∙◌, ap, ◌⊎◌, arith}
use demo_testbench.Base.{le→ltb, lt→ltb}
use demo_testbench.Cbuf.{Cbuf, free_level, fill_level}
use demo_testbench.Cbuf.Valid.{IsValid, TmpFits, wrap, masked_lem, free_level_lem}
use demo_testbench.Cbuf.Api.{
  Ptr, null, in_bytes, in_write_tmp, reserve, reserve_tmp, reserved_tmp, write_tmp_ptr,
  new_tmp_size,
}
use demo_testbench.Cbuf.Api.Grow.{new_tmp_size_lem}

-- The bytes that a pointer gives access to in the ring `b`, for a write of `n` bytes.
pub record IsReserved (b : Cbuf) (ptr : Ptr) (n : ℕ) (b' : Cbuf) : Type 0 where
  pub tmp : Option (List ℕ)
  pub tmp_size : ℕ
  pub ring : b' ≡ record b { write_data_tmp_size = tmp_size; write_data_tmp = tmp }
  pub fits : TmpFits tmp_size tmp
  pub place :
      ((ptr ≡ in_bytes (wrap b.size b.wr_ptr)) × (wrap b.size b.wr_ptr + n ≤ b.size))
      ⊎ ((block : List ℕ) × (tmp ≡ some block)
          × (ptr ≡ in_write_tmp)
          × (n ≤ length block)
          × (b.size < wrap b.size b.wr_ptr + n))

-- A temporary buffer that is large enough is not a null pointer.
pub tmp_present :
    (tmp : Option (List ℕ)) (size n : ℕ)
    → TmpFits size tmp
    → 0 < n
    → n ≤ size
    → (block : List ℕ) × (tmp ≡ some block) × (n ≤ length block)
tmp_present none size n fits h le = absurd (omega arith)
tmp_present (some block) size n fits h le = (block, refl, omega arith)

reserve_tmp_grown :
    (realloc : Option (List ℕ) → ℕ → Option (List ℕ)) (b : Cbuf) (n new_size : ℕ) (block : List ℕ)
    → ltb b.write_data_tmp_size n ≡ true
    → new_tmp_size b.hint_max_write_size n b.size ≡ done new_size
    → realloc b.write_data_tmp new_size ≡ some block
    → reserve_tmp realloc b n
      ≡ done (
        ok,
        some in_write_tmp,
        record b { write_data_tmp_size = new_size; write_data_tmp = some block },
      )
unfolding reserve_tmp reserved_tmp
reserve_tmp_grown realloc b n new_size block short e given =
    rw (short, e)
      (ap
        (λ (t : Option (List ℕ)).
          let b' : Cbuf = record b { write_data_tmp_size = new_size; write_data_tmp = t } in
          done (reserved_tmp b'))
        given)

reserve_tmp_kept :
    (realloc : Option (List ℕ) → ℕ → Option (List ℕ)) (b : Cbuf) (n : ℕ) (block : List ℕ)
    → ltb b.write_data_tmp_size n ≡ false
    → b.write_data_tmp ≡ some block
    → reserve_tmp realloc b n ≡ done (ok, some in_write_tmp, b)
unfolding reserve_tmp write_tmp_ptr
reserve_tmp_kept realloc b n block enough e =
    rw enough (ap (λ (t : Option (List ℕ)). done (ok, some (write_tmp_ptr t), b)) e)

module _ (realloc : Option (List ℕ) → ℕ → Option (List ℕ))
    (gives : (tmp : Option (List ℕ)) (n : ℕ)
      → (block : List ℕ) × (realloc tmp n ≡ some block) × (length block ≡ n)) where
  reserve_tmp-IsReserved :
      {b : Cbuf} (n : ℕ)
      → IsValid b
      → n < 2 ^ 30
      → n ≤ b.size
      → b.size < wrap b.size b.wr_ptr + n
      → (ptr : Ptr) × (b' : Cbuf) × (reserve_tmp realloc b n ≡ done (ok, some ptr, b'))
        × IsReserved b ptr n b'
  reserve_tmp-IsReserved {b} n v small le wraps =
      let positive : 0 < n = ground (arith, v.wr_in) in
      elim (Bool-cases (ltb b.write_data_tmp_size n)) [
        | inl short ↦
            let (new_size, e, room) =
              new_tmp_size_lem b.hint_max_write_size n b.size positive small le in
            let (block, given, len) = gives b.write_data_tmp new_size in
            (
              in_write_tmp,
              record b { write_data_tmp_size = new_size; write_data_tmp = some block },
              reserve_tmp_grown realloc b n new_size block short e given,
              record {
                tmp = some block;
                tmp_size = new_size;
                ring = refl;
                fits = len;
                place = inr (block, refl, refl, omega arith, wraps);
              },
            )
        | inr enough ↦
            let (block, e, room) =
              tmp_present b.write_data_tmp b.write_data_tmp_size n v.write_tmp positive
                (ground (arith, enough)) in
            (
              in_write_tmp,
              b,
              reserve_tmp_kept realloc b n block enough e,
              record {
                tmp = b.write_data_tmp;
                tmp_size = b.write_data_tmp_size;
                ring = refl;
                fits = v.write_tmp;
                place = inr (block, e, refl, room, wraps);
              },
            )
      ]

  -- With memory at hand, a reservation of free bytes below 2^30 gives a pointer with room for
  -- them, and changes no more than the temporary buffer.
  pub reserve-IsReserved :
      {b : Cbuf} (n : ℕ)
      → IsValid b
      → n < 2 ^ 30
      → n ≤ free_level b
      → (ptr : Ptr) × (b' : Cbuf) × (reserve realloc b n ≡ done (ok, some ptr, b'))
        × IsReserved b ptr n b'
  unfolding reserve
  reserve-IsReserved {b} n v small free =
      let at_lt : wrap b.size b.wr_ptr < b.size = ground (arith, v.wr_in) in
      let le : n ≤ b.size = omega (arith, free_level_lem v) in
      let enough : ltb (free_level b) n ≡ false = le→ltb (free_level b) n free in
      let sum : add_size (wrap b.size b.wr_ptr) n ≡ wrap b.size b.wr_ptr + n =
        omega (arith, v.small) in
      rw (masked_lem v b.wr_ptr v.wr_in, enough, sum)
        (elim (Bool-cases (leb (wrap b.size b.wr_ptr + n) b.size)) [
          | inl one ↦ rw one (
            in_bytes (wrap b.size b.wr_ptr),
            b,
            refl,
            record {
              tmp = b.write_data_tmp;
              tmp_size = b.write_data_tmp_size;
              ring = refl;
              fits = v.write_tmp;
              place = inl (refl, ground (arith, one));
            },
          )
          | inr two ↦ rw two (reserve_tmp-IsReserved n v small le (ground (arith, two)))
        ])

-- Reserving more than is free is refused, whatever the allocator does.
pub reserve_einval :
    (realloc : Option (List ℕ) → ℕ → Option (List ℕ)) (b : Cbuf) (n : ℕ)
    → free_level b < n
    → reserve realloc b n ≡ done (einval, none, b)
unfolding reserve
reserve_einval realloc b n h = rw (lt→ltb (free_level b) n h) refl

reserve_tmp_failed :
    (realloc : Option (List ℕ) → ℕ → Option (List ℕ)) (b : Cbuf) (n new_size : ℕ)
    → ltb b.write_data_tmp_size n ≡ true
    → new_tmp_size b.hint_max_write_size n b.size ≡ done new_size
    → realloc b.write_data_tmp new_size ≡ none
    → reserve_tmp realloc b n
      ≡ done (enomem, none, record b { write_data_tmp_size = new_size; write_data_tmp = none })
unfolding reserve_tmp reserved_tmp
reserve_tmp_failed realloc b n new_size short e lost =
    rw (short, e)
      (ap
        (λ (t : Option (List ℕ)).
          let b' : Cbuf = record b { write_data_tmp_size = new_size; write_data_tmp = t } in
          done (reserved_tmp b'))
        lost)

reserve_tmp_null :
    (realloc : Option (List ℕ) → ℕ → Option (List ℕ)) (b : Cbuf) (n : ℕ)
    → ltb b.write_data_tmp_size n ≡ false
    → b.write_data_tmp ≡ none
    → reserve_tmp realloc b n ≡ done (ok, some null, b)
unfolding reserve_tmp write_tmp_ptr
reserve_tmp_null realloc b n enough e =
    rw enough (ap (λ (t : Option (List ℕ)). done (ok, some (write_tmp_ptr t), b)) e)

sum-wrap :
    {b : Cbuf} (n : ℕ)
    → IsValid b
    → n ≤ free_level b
    → add_size (wrap b.size b.wr_ptr) n ≡ wrap b.size b.wr_ptr + n
sum-wrap {b} n v free =
    let at_lt : wrap b.size b.wr_ptr < b.size = ground (arith, v.wr_in) in
    omega (arith, v.small, free_level_lem v)

-- Where a wrap occurs a reservation comes down to the temporary buffer.
reserve_wraps :
    (realloc : Option (List ℕ) → ℕ → Option (List ℕ)) {b : Cbuf} (n : ℕ) (tmp : Option (List ℕ))
    (tmp_size : ℕ)
    → IsValid b
    → n ≤ free_level b
    → b.size < wrap b.size b.wr_ptr + n
    → let b' = record b { write_data_tmp_size = tmp_size; write_data_tmp = tmp } in
      reserve realloc b' n ≡ reserve_tmp realloc b' n
unfolding reserve free_level fill_level
reserve_wraps realloc {b} n tmp tmp_size v free wraps =
    let enough : ltb (free_level b) n ≡ false = le→ltb (free_level b) n free in
    let sum = sum-wrap n v free in
    let two : leb (wrap b.size b.wr_ptr + n) b.size ≡ false = ground arith in
    rw (enough, masked_lem v b.wr_ptr v.wr_in, sum, two) refl

-- After a failed `realloc` the size field has the new size and the pointer is null. So the next
-- reservation of as many bytes skips `realloc`, reports success and hands out the null pointer.
pub reserve_after_failure :
    (realloc retried : Option (List ℕ) → ℕ → Option (List ℕ)) {b : Cbuf} (n : ℕ)
    → ((tmp : Option (List ℕ)) (n : ℕ) → realloc tmp n ≡ none)
    → IsValid b
    → n < 2 ^ 30
    → n ≤ free_level b
    → b.size < wrap b.size b.wr_ptr + n
    → b.write_data_tmp_size < n
    → (b' : Cbuf) × (reserve realloc b n ≡ done (enomem, none, b'))
      × (reserve retried b' n ≡ done (ok, some null, b'))
reserve_after_failure realloc retried {b} n fails v small free wraps short =
    let le : n ≤ b.size = omega (arith, free_level_lem v) in
    let positive : 0 < n = ground (arith, v.wr_in) in
    let (new_size, e, room) = new_tmp_size_lem b.hint_max_write_size n b.size positive small le in
    let b' = record b { write_data_tmp_size = new_size; write_data_tmp = none } in
    (
      b',
      reserve_wraps realloc n b.write_data_tmp b.write_data_tmp_size v free wraps
          ∙ reserve_tmp_failed realloc b n new_size (lt→ltb _ _ short) e
              (fails b.write_data_tmp new_size),
      reserve_wraps retried n none new_size v free wraps
          ∙ reserve_tmp_null retried b' n (le→ltb new_size n room) refl,
    )
