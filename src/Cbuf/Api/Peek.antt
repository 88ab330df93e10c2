-- ===== src/Cbuf/Api/Peek.antt =====
-- `cbuf_peek`: what is read through its pointer are the oldest bytes, and none of them is taken.
use demo_testbench.Base.{ℕ, ◌+◌, ◌-◌, ◌^◌, ◌≤◌, ◌<◌, ltb, leb, ◌==◌}
use demo_testbench.Base.{
  add_size, sub_size, int_size, int_size_lem, Option, none, some, List, ◌++◌, length, take, drop,
}
use demo_testbench.Base.{Bool, splice, true, false, Bool-cases, inl, inr}
use demo_testbench.Base.{done, ok, ◌≡◌, refl, ◌∙◌, ap, arith}
use demo_testbench.Base.{
  length-take, length-drop, get_or-take, get_or-drop, get_or_ext, get_or-append, length-append,
}
use demo_testbench.Base.{le→leb, le→ltb}
use demo_testbench.Cbuf.{Cbuf, fill_level}
use demo_testbench.Cbuf.Valid.{IsValid, TmpFits, wrap, ahead, masked_lem, fill_level_lem}
use demo_testbench.Cbuf.Copy.{Copied, memcpy-Copied, IsTaken, taken_in_two}
use demo_testbench.Cbuf.Contents.{contents, window, IsTaken-window, get_or-window, length-window}
use demo_testbench.Cbuf.Contents.{length-contents, wrap-rd_ptr-lt}
use demo_testbench.Cbuf.Api.{Ptr, in_bytes, in_read_tmp, peek, grow_read_tmp, fill_read_tmp}
use demo_testbench.Cbuf.Api.{new_tmp_size, load, load_from}
use demo_testbench.Cbuf.Api.Reserve.{tmp_present}
use demo_testbench.Cbuf.Api.Grow.{new_tmp_size_lem}

take-append_left : (n : ℕ) (xs ys : List ℕ) → length xs ≡ n → take n (xs ++ ys) ≡ xs
take-append_left n xs ys e =
    get_or_ext 0 _ _ (omega (arith, length-take n (xs ++ ys), length-append xs ys)) (λ i h.
      rw (get_or-take n (xs ++ ys) i 0, get_or-append xs ys i 0)
        (ground (arith, length-take n (xs ++ ys))))

read_tmp_replaced :
    {b : Cbuf} (v : IsValid b) (tmp : Option (List ℕ)) (tmp_size : ℕ)
    → TmpFits tmp_size tmp
    → IsValid (record b { read_data_tmp_size = tmp_size; read_data_tmp = tmp })
read_tmp_replaced v tmp tmp_size fits = record {
  log_size = v.log_size;
  is_power = v.is_power;
  small = v.small;
  allocated = v.allocated;
  wr_in = v.wr_in;
  rd_in = v.rd_in;
  level_in = v.level_in;
  read_tmp = fits;
  write_tmp = v.write_tmp;
}

-- A continuous part of the ring is a window of it.
load-window :
    (mem : List ℕ) (size start n level : ℕ)
    → start + n ≤ size
    → size ≤ length mem
    → n ≤ level
    → load_from mem start n ≡ done (take n (window mem size start level))
unfolding load_from
load-window mem size start n level h1 h2 h3 = rw (le→leb (start + n) (length mem) (omega arith)) (
    ap done (
      get_or_ext 0 _ _
        (omega (
          arith,
          length-take n (drop start mem),
          length-drop start mem,
          length-take n (window mem size start level),
          length-window mem size start level,
        ))
        (λ i h.
          rw
            (
              get_or-take n (drop start mem) i 0,
              get_or-drop start mem i 0,
              get_or-take n (window mem size start level) i 0,
            )
            (ground
              (arith, get_or-window mem size start level i, length-take n (drop start mem))))))

-- The two copies of `cbuf_peek`, for a temporary buffer with room.
fill_read_tmp-IsTaken :
    {b : Cbuf} (block : List ℕ) (n : ℕ) (grown : Bool)
    → IsValid b
    → n ≤ length block
    → n ≤ 2 ^ 31
    → n ≤ b.size
    → b.size < wrap b.size b.rd_ptr + n
    → (out : List ℕ) × (fill_read_tmp b n grown (some block)
        ≡ done (ok, some in_read_tmp, record b { read_data_tmp = some out }))
      × IsTaken b.bytes b.size (wrap b.size b.rd_ptr) n block out
unfolding fill_read_tmp
fill_read_tmp-IsTaken {b} block n grown v hb few hn wraps =
    rw (masked_lem v b.rd_ptr v.rd_in, end_lem, c.runs, start_lem)
      (
        whole,
        rw d.runs refl,
        record {
          same_length = d.same_length ∙ c.same_length;
          cell = λ i.
              taken_in_two b.bytes block front whole b.size at n i inside wraps hn (c.cell i)
                (d.cell i);
        },
      )
  where
    at : ℕ
    at = wrap b.size b.rd_ptr

    inside : at < b.size
    inside = wrap-rd_ptr-lt v

    size_to_end : ℕ
    size_to_end = b.size - at

    end_lem : int_size (sub_size b.size at) ≡ size_to_end
    end_lem =
        let plain : sub_size b.size at ≡ size_to_end = omega (arith, inside, v.small) in
        ap (λ k. int_size k) plain ∙ int_size_lem size_to_end (omega (arith, wraps, few))

    start_lem : sub_size n size_to_end ≡ n - size_to_end
    start_lem = omega (arith, wraps, inside, v.small)

    front : List ℕ
    front = splice block 0 (take size_to_end (drop at b.bytes))

    c : Copied block 0 b.bytes at size_to_end front
    c =
        memcpy-Copied block 0 b.bytes at size_to_end (omega (arith, wraps, inside))
          (omega (arith, v.allocated, inside))

    whole : List ℕ
    whole = splice front size_to_end (take (n - size_to_end) b.bytes)

    d : Copied front size_to_end b.bytes 0 (n - size_to_end) whole
    d =
        memcpy-Copied front size_to_end b.bytes 0 (n - size_to_end)
          (omega (arith, c.same_length, wraps, inside)) (omega (arith, v.allocated))

-- What `cbuf_peek` may change: the temporary buffer for reading, which keeps fitting its size.
pub record IsPeeked (b : Cbuf) (ptr : Ptr) (n : ℕ) (b' : Cbuf) : Type 0 where
  pub tmp : Option (List ℕ)
  pub tmp_size : ℕ
  pub ring : b' ≡ record b { read_data_tmp_size = tmp_size; read_data_tmp = tmp }
  pub fits : TmpFits tmp_size tmp
  pub bytes : load b' ptr n ≡ done (take n (contents b))

load_in_read_tmp :
    (b : Cbuf) (block : List ℕ) (n : ℕ)
    → b.read_data_tmp ≡ some block
    → n ≤ length block
    → load b in_read_tmp n ≡ done (take n block)
unfolding load load_from
load_in_read_tmp b block n e h =
    let fits : leb (0 + n) (length block) ≡ true = le→leb (0 + n) (length block) (omega arith) in
    rw (e, fits) refl

read_tmp-IsPeeked :
    {b : Cbuf} (block : List ℕ) (tmp_size n : ℕ) (grown : Bool)
    → IsValid b
    → length block ≡ tmp_size
    → n ≤ length block
    → n ≤ 2 ^ 31
    → n ≤ ahead b.size b.wr_ptr b.rd_ptr
    → b.size < wrap b.size b.rd_ptr + n
    → let b1 = record b { read_data_tmp_size = tmp_size; read_data_tmp = some block } in
      (b' : Cbuf) × (fill_read_tmp b1 n grown (some block) ≡ done (ok, some in_read_tmp, b'))
      × IsPeeked b in_read_tmp n b'
read_tmp-IsPeeked {b} block tmp_size n grown v fits hb few level wraps =
    let b1 = record b { read_data_tmp_size = tmp_size; read_data_tmp = some block } in
    let v1 = read_tmp_replaced v (some block) tmp_size fits in
    let (out, runs, t) =
      fill_read_tmp-IsTaken {b = b1} block n grown v1 hb few (omega (arith, v.level_in)) wraps in
    let shown = IsTaken-window b.bytes block out b.size (wrap b.size b.rd_ptr) _ n level hb t in
    let len : length (take n (contents b)) ≡ n =
      omega (arith, length-take n (contents b), length-contents b) in
    (
      record b { read_data_tmp_size = tmp_size; read_data_tmp = some out },
      runs,
      record {
        tmp = some out;
        tmp_size = tmp_size;
        ring = refl;
        fits = t.same_length ∙ fits;
        bytes =
            load_in_read_tmp _ out n refl (omega (arith, t.same_length))
            ∙ ap done (ap (take n) shown ∙ take-append_left n (take n (contents b)) _ len);
      },
    )

grow_read_tmp_grown :
    (realloc : Option (List ℕ) → ℕ → Option (List ℕ)) (b : Cbuf) (n new_size : ℕ) (block : List ℕ)
    → ltb b.read_data_tmp_size n ≡ true
    → new_tmp_size b.hint_max_read_size n b.size ≡ done new_size
    → realloc b.read_data_tmp new_size ≡ some block
    → grow_read_tmp realloc b n
      ≡ done (record b { read_data_tmp_size = new_size; read_data_tmp = some block })
unfolding grow_read_tmp
grow_read_tmp_grown realloc b n new_size block short e given =
    rw (short, e)
      (ap
        (λ (t : Option (List ℕ)).
          done (record b { read_data_tmp_size = new_size; read_data_tmp = t }))
        given)

grow_read_tmp_kept :
    (realloc : Option (List ℕ) → ℕ → Option (List ℕ)) (b : Cbuf) (n : ℕ)
    → ltb b.read_data_tmp_size n ≡ false
    → grow_read_tmp realloc b n ≡ done b
unfolding grow_read_tmp
grow_read_tmp_kept realloc b n enough = rw enough refl

fill_read_tmp_at :
    (b : Cbuf) (block : List ℕ) (n : ℕ) (grown : Bool)
    → b.read_data_tmp ≡ some block
    → fill_read_tmp b n grown b.read_data_tmp
      ≡ fill_read_tmp (record b { read_data_tmp = some block }) n grown (some block)
fill_read_tmp_at b block n grown e =
    ap (λ (t : Option (List ℕ)). fill_read_tmp (record b { read_data_tmp = t }) n grown t) e

-- On a valid ring, with an allocator that gives each block asked for, a peek at some bytes that
-- are there, fewer than 2^30, gives a pointer through which exactly the oldest n bytes are read,
-- and changes nothing but the temporary buffer.
pub peek-IsPeeked :
    (realloc : Option (List ℕ) → ℕ → Option (List ℕ))
    → ((tmp : Option (List ℕ)) (n : ℕ)
        → (block : List ℕ) × (realloc tmp n ≡ some block) × (length block ≡ n))
    → {b : Cbuf} (n : ℕ) → IsValid b
    → 0 < n
    → n < 2 ^ 30
    → n ≤ fill_level b
    → (ptr : Ptr) × (b' : Cbuf) × (peek realloc b n ≡ done (ok, some ptr, b')) × IsPeeked b ptr n b'
unfolding peek load
peek-IsPeeked realloc gives {b} n v positive small enough =
    let level : n ≤ ahead b.size b.wr_ptr b.rd_ptr = omega (arith, fill_level_lem v) in
    let nonzero : (n == 0) ≡ false = ground arith in
    let there : ltb (fill_level b) n ≡ false = le→ltb (fill_level b) n enough in
    let sum : add_size (wrap b.size b.rd_ptr) n ≡ wrap b.size b.rd_ptr + n =
      omega (arith, v.small, v.level_in, wrap-rd_ptr-lt v) in
    rw (nonzero, there, masked_lem v b.rd_ptr v.rd_in, sum)
      (elim (Bool-cases (leb (wrap b.size b.rd_ptr + n) b.size)) [
        | inl one ↦ rw one (
          in_bytes (wrap b.size b.rd_ptr),
          b,
          refl,
          record {
            tmp = b.read_data_tmp;
            tmp_size = b.read_data_tmp_size;
            ring = refl;
            fits = v.read_tmp;
            bytes =
                load-window b.bytes b.size (wrap b.size b.rd_ptr) n _ (ground (arith, one))
                  (omega (arith, v.allocated)) level;
          },
        )
        | inr two ↦
            let wraps : b.size < wrap b.size b.rd_ptr + n = ground (arith, two) in
            elim (Bool-cases (ltb b.read_data_tmp_size n)) [
              | inl short ↦
                  let (new_size, e, room) =
                    new_tmp_size_lem b.hint_max_read_size n b.size positive small
                      (omega (arith, v.level_in)) in
                  let (block, given, len) = gives b.read_data_tmp new_size in
                  let (b', runs, p) =
                    read_tmp-IsPeeked block new_size n true v len (omega arith) (omega arith) level
                      wraps in
                  rw (two, grow_read_tmp_grown realloc b n new_size block short e given, short)
                    (in_read_tmp, b', runs, p)
              | inr kept ↦
                  let (block, e, hb) =
                    tmp_present b.read_data_tmp b.read_data_tmp_size n v.read_tmp positive
                      (ground (arith, kept)) in
                  let (b', runs, p) =
                    read_tmp-IsPeeked block b.read_data_tmp_size n false v (rw e at v.read_tmp) hb
                      (omega arith) level wraps in
                  rw (two, grow_read_tmp_kept realloc b n kept, kept)
                    (in_read_tmp, b', fill_read_tmp_at b block n false e ∙ runs, p)
            ]
      ])

-- A peek at 0 bytes sets no pointer and changes nothing.
pub peek-zero :
    (realloc : Option (List ℕ) → ℕ → Option (List ℕ)) (b : Cbuf)
    → peek realloc b 0 ≡ done (ok, none, b)
unfolding peek
peek-zero realloc b = refl

-- A peek keeps the invariant and the contents.
pub peeked-IsValid :
    {b b' : Cbuf} {ptr : Ptr} {n : ℕ}
    → IsValid b
    → IsPeeked b ptr n b'
    → IsValid b' × (contents b' ≡ contents b) × (b'.size ≡ b.size)
peeked-IsValid v p = rw p.ring (read_tmp_replaced v p.tmp p.tmp_size p.fits, refl, refl)
