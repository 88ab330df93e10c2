-- ===== src/Cbuf/Fifo.antt =====
-- The basic mode against a queue of bytes with a bounded length.
use native.Mathlib.Nat.{one-le-pow}
use demo_testbench.Base.{ℕ, zero, suc, ◌+◌, ◌-◌, ◌^◌, ◌≤◌, ◌<◌, ltb, ◌==◌, if◌then◌else◌}
use demo_testbench.Base.{List, [], ◌++◌, length, take, drop, arith, ◌≡◌, refl, ◌∙◌, ap, true, false}
use demo_testbench.Base.{Option, none, some, length-take, inl, inr, ◌↔◌, Bool}
use demo_testbench.Base.{done, abort, Status, ok, einval, enomem, Bool-cases}
use demo_testbench.Base.{sub_size, bit_and, not, ◌&&◌}
use demo_testbench.Base.Bits.{bit_and-pow, pow_of_bit_and}
use demo_testbench.Cbuf.{
  Cbuf, init, init_buffer, write, read, discard, fill_level, free_level, ptr_add,
}
use demo_testbench.Cbuf.Valid.{IsValid, wrap, ahead, fill_level_lem, free_level_lem}
use demo_testbench.Cbuf.Copy.{write_bytes-IsWritten, read_bytes-IsTaken}
use demo_testbench.Cbuf.Contents.{
  contents, length-contents, window-IsWritten, window-drop, IsTaken-window,
}
use demo_testbench.Cbuf.Contents.{ahead-ptr_add_wr, ahead-ptr_add_rd, wrap-rd_ptr-lt, wrap-wr_ptr}

-- A queue of at most `cap` bytes: it takes all of a write or none of it.
unfoldable pub put : ℕ → List ℕ → List ℕ → Status × List ℕ
put cap q src = if ltb cap (length q + length src) then (einval, q) else (ok, q ++ src)

-- Taking `n` bytes gives all of them or none.
unfoldable pub get : List ℕ → ℕ → Status × List ℕ × List ℕ
get q n = if ltb (length q) n then (einval, [], q) else (ok, take n q, drop n q)

-- The ring that a moved write pointer and new memory give.
pub advanced-IsValid :
    {b : Cbuf} (v : IsValid b) (out : List ℕ) (n : ℕ)
    → length out ≡ length b.bytes
    → ahead b.size b.wr_ptr b.rd_ptr + n ≤ b.size
    → IsValid (record b { bytes = out; wr_ptr = ptr_add b b.wr_ptr n })
advanced-IsValid {b} v out n same fits = record {
  log_size = v.log_size;
  is_power = v.is_power;
  small = v.small;
  allocated = same ∙ v.allocated;
  wr_in = (ahead-ptr_add_wr v n fits).0;
  rd_in = v.rd_in;
  level_in = omega (arith, ahead-ptr_add_wr v n fits);
  read_tmp = v.read_tmp;
  write_tmp = v.write_tmp;
}

-- Moving the read pointer on keeps the ring valid and drops the bytes that it passes.
pub consumed :
    {b : Cbuf} (v : IsValid b) (n : ℕ)
    → n ≤ ahead b.size b.wr_ptr b.rd_ptr
    → let b' = record b { rd_ptr = ptr_add b b.rd_ptr n } in
      IsValid b' × (contents b' ≡ drop n (contents b))
consumed {b} v n fits = (
  record {
    log_size = v.log_size;
    is_power = v.is_power;
    small = v.small;
    allocated = v.allocated;
    wr_in = v.wr_in;
    rd_in = (ahead-ptr_add_rd v n fits).0;
    level_in = omega (arith, ahead-ptr_add_rd v n fits, v.level_in);
    read_tmp = v.read_tmp;
    write_tmp = v.write_tmp;
  },
  rw ((ahead-ptr_add_rd v n fits).1, (ahead-ptr_add_rd v n fits).2)
      (window-drop b.bytes b.size (wrap b.size b.rd_ptr) (ahead b.size b.wr_ptr b.rd_ptr) n
        (wrap-rd_ptr-lt v) fits v.level_in),
)

-- `cbuf_write` of `n` bytes of `src` is `put` of those bytes.
pub write_refines :
    {b : Cbuf} (src : List ℕ) (n : ℕ)
    → IsValid b
    → n ≤ length src
    → (b' : Cbuf) × (write b src n ≡ done ((put b.size (contents b) (take n src)).0, b'))
      × (contents b' ≡ (put b.size (contents b) (take n src)).1)
      × IsValid b'
      × (b'.size ≡ b.size)
unfolding write put
write_refines {b} src n v h = rw tests (elim (Bool-cases (ltb (free_level b) n)) [
  | inl full ↦ rw full (b, refl, refl, v, refl)
  | inr fits ↦
      let room : ahead b.size b.wr_ptr b.rd_ptr + n ≤ b.size =
        ground (arith, fits, free_level_lem v) in
      let (out, runs, w) = write_bytes-IsWritten src n v (omega arith) h in
      let at = wrap-wr_ptr v in
      rw (fits, runs)
        (
          record b { bytes = out; wr_ptr = ptr_add b b.wr_ptr n },
          refl,
          rw (ahead-ptr_add_wr v n room).1 (
              window-IsWritten b.bytes src out b.size (wrap b.size b.rd_ptr)
                (ahead b.size b.wr_ptr b.rd_ptr) n n (wrap-rd_ptr-lt v) room (omega arith) h
                (rw at at w)),
          advanced-IsValid v out n w.same_length room,
          refl,
        )
])
  where
    tests : ltb b.size (length (contents b) + length (take n src)) ≡ ltb (free_level b) n
    tests = ground (arith, length-contents b, length-take n src, free_level_lem v)

-- A read of more than there is takes nothing, whatever the array.
pub read_short :
    (b : Cbuf) (out : List ℕ) (n : ℕ) → fill_level b < n → read b out n ≡ done (einval, out, b)
unfolding read
read_short b out n h =
    let short : ltb (fill_level b) n ≡ true = ground arith in
    let some : (n == 0) ≡ false = ground arith in rw (some, short) refl

-- In a ring of at most 2^31 bytes, `cbuf_read` of `n` bytes into an array that has room for them is `get`: the array starts with
-- the bytes taken and keeps the rest of its own.
pub read_refines :
    {b : Cbuf} (dst : List ℕ) (n : ℕ)
    → IsValid b
    → b.size ≤ 2 ^ 31
    → n ≤ length dst
    → (b' : Cbuf) × (read b dst n
        ≡ done (
          (get (contents b) n).0,
          (get (contents b) n).1 ++ drop (length (get (contents b) n).1) dst,
          b',
        ))
      × (contents b' ≡ (get (contents b) n).2)
      × IsValid b'
      × (b'.size ≡ b.size)
unfolding read get
read_refines {b} dst zero v small h = rw tests (b, refl, refl, v, refl)
  where
    tests : ltb (length (contents b)) 0 ≡ false
    tests = ground arith
read_refines {b} dst (suc n) v small h =
    rw (tests, positive)
      (elim (Bool-cases (ltb (fill_level b) (suc n))) [
        | inl short ↦ rw short (b, refl, refl, v, refl)
        | inr enough ↦
            let le : suc n ≤ ahead b.size b.wr_ptr b.rd_ptr =
              ground (arith, enough, fill_level_lem v) in
            let (out, runs, t) =
              read_bytes-IsTaken dst (suc n) v (omega (arith, v.level_in))
                (omega (arith, v.level_in, small)) h in
            let len : length (take (suc n) (contents b)) ≡ suc n =
              omega (arith, length-take (suc n) (contents b), length-contents b) in
            let (valid, rest) = consumed v (suc n) le in
            rw (enough, runs, len)
              (
                record b { rd_ptr = ptr_add b b.rd_ptr (suc n) },
                ap (λ o. done (ok, o, record b { rd_ptr = ptr_add b b.rd_ptr (suc n) }))
                    (IsTaken-window b.bytes dst out b.size (wrap b.size b.rd_ptr) _ (suc n) le h t),
                rest,
                valid,
                refl,
              )
      ])
  where
    tests : ltb (length (contents b)) (suc n) ≡ ltb (fill_level b) (suc n)
    tests = rw (length-contents b, fill_level_lem v) refl

    positive : (suc n == 0) ≡ false
    positive = ground arith

-- `cbuf_discard` of `n` bytes is `get` of them with the bytes thrown away.
pub discard_refines :
    {b : Cbuf} (n : ℕ)
    → IsValid b
    → let (s, b') = discard b n in
      (s ≡ (get (contents b) n).0)
      × (contents b' ≡ (get (contents b) n).2)
      × IsValid b'
      × (b'.size ≡ b.size)
unfolding discard get
discard_refines {b} n v = rw tests (elim (Bool-cases (ltb (fill_level b) n)) [
  | inl short ↦ rw short (refl, refl, v, refl)
  | inr enough ↦
      let (valid, rest) = consumed v n (ground (arith, enough, fill_level_lem v)) in
      rw enough (refl, rest, valid, refl)
])
  where
    tests : ltb (length (contents b)) n ≡ ltb (fill_level b) n
    tests = rw (length-contents b, fill_level_lem v) refl

-- The test in the assertion of `cbuf_init`.
abbrev is_power : ℕ → Bool
is_power size = not (size == 0) && bit_and size (sub_size size 1) == 0

is_power-pow : (k : ℕ) → 2 ^ k < 2 ^ 64 → is_power (2 ^ k) ≡ true
is_power-pow k h =
    let less : sub_size (2 ^ k) 1 ≡ 2 ^ k - 1 = omega (arith, one-le-pow k 2 (omega arith)) in
    ground (arith, less, bit_and-pow k, one-le-pow k 2 (omega arith))

pow_of_is_power : (size : ℕ) → size < 2 ^ 64 → is_power size ≡ true → (k : ℕ) × (size ≡ 2 ^ k)
pow_of_is_power size h t =
    let positive : 0 < size = ground (arith, t) in
    let less : sub_size size 1 ≡ size - 1 = omega arith in
    pow_of_bit_and size size (omega arith) positive (ground (arith, t, less))

-- `cbuf_init` accepts a size below 2^64 exactly when it is a power of two; any other fails its
-- assertion.
pub init-abort :
    (calloc : ℕ → Option (List ℕ)) (have_struct : Bool) (size : ℕ)
    → size < 2 ^ 64
    → (init calloc have_struct size ≡ abort) ↔ (¬ ((k : ℕ) × (size ≡ 2 ^ k)))
unfolding init
init-abort calloc have_struct size h = elim (Bool-cases (is_power size)) [
  | inl t ↦ (λ e p. runs have_struct (rw t at e), λ np. absurd (np (pow_of_is_power size h t)))
  | inr f ↦ (λ e p. refused f p, λ np. rw f refl)
]
  where
    runs :
        (s : Bool)
        → (if s then done (init_buffer size (calloc size)) else done (enomem, none)) ≡ abort
        → ⊥
    runs true e = cc
    runs false e = cc

    refused : is_power size ≡ false → (k : ℕ) × (size ≡ 2 ^ k) → ⊥
    refused f (k, e) =
        let holds : is_power size ≡ true = rw e (is_power-pow k (rw e at h)) in cc (holds, f)

-- With the memory at hand a power of two up to 2^62 gives a valid ring with no bytes in it.
pub init-IsValid :
    (calloc : ℕ → Option (List ℕ)) (k : ℕ) {block : List ℕ}
    → 2 ^ k ≤ 2 ^ 62
    → calloc (2 ^ k) ≡ some block
    → length block ≡ 2 ^ k
    → (b : Cbuf) × (init calloc true (2 ^ k) ≡ done (ok, some b))
      × IsValid b
      × (contents b ≡ [])
      × (b.size ≡ 2 ^ k)
unfolding init init_buffer
init-IsValid calloc k {block} h e l =
    let test : is_power (2 ^ k) ≡ true = is_power-pow k (omega arith) in
    rw (test, e)
      (
        _,
        refl,
        record {
          log_size = k;
          is_power = refl;
          small = h;
          allocated = l;
          wr_in = omega (arith, one-le-pow k 2 (omega arith));
          rd_in = omega (arith, one-le-pow k 2 (omega arith));
          level_in = omega arith;
          read_tmp = refl;
          write_tmp = refl;
        },
        refl,
        refl,
      )
