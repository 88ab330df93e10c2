-- ===== src/Cypress/Threads.antt =====
-- What a pass of either USB thread does.
use demo_testbench.Base.{
  ℕ, zero, suc, ◌-◌, ◌*◌, ◌/◌, ◌%◌, ◌^◌, ◌≤◌, ◌<◌, ◌==◌, ltb, leb, if◌then◌else◌, min, List, [],
  ◌++◌, length, take, drop,
}
use demo_testbench.Base.{
  Option, none, some, Outcome, done, abort, Status, ok, ◌≡◌, refl, sym, ap, ◌∙◌, arith, Bool-cases,
  inl, inr, Bool, ◌>>◌, assert_that, true, false,
}
use demo_testbench.Base.{length-take, take_less, take_all}
use demo_testbench.Cbuf
use demo_testbench.Cbuf.{Cbuf, fill_level, free_level}
use demo_testbench.Cbuf.Valid.{IsValid, fill_level_lem, free_level_lem}
use demo_testbench.Cbuf.Contents.{contents, length-contents}
use demo_testbench.Cbuf.Fifo.{get, discard_refines}
use demo_testbench.Cbuf.Api.{Ptr, peek, reserve, store, commit}
use demo_testbench.Cbuf.Api.Commit.{reserve-store-commit}
use demo_testbench.Cbuf.Api.Peek.{peek-IsPeeked, peek-zero, peeked-IsValid}
use demo_testbench.Cypress.{
  Cypress, Bulk, moved, usb_error, transfer_len, load_transfer, end_write, usb_write_pass,
  usb_read_pass,
}

-- Whole packets, up to 64 of them, or else what there is, in whole words.
transfer_len_lem :
    (u : Cypress) (level : ℕ)
    → (transfer_len u level ≤ level)
      × (transfer_len u level % 2 ≡ 0)
      × (transfer_len u level ≤ 32768)
unfolding transfer_len
transfer_len_lem u level = ground arith

take-take : (k n : ℕ) (xs : List ℕ) → take k (take n xs) ≡ take (min k n) xs
take-take k n xs = elim (Bool-cases (leb k n)) [
  | inl few ↦
      let least : min k n ≡ k = ground (arith, few) in
      take_less k n xs (ground (arith, few)) ∙ ap (λ j. take j xs) (sym least)
  | inr many ↦
      let least : min k n ≡ n = ground (arith, many) in
      take_all k (take n xs) (ground (arith, many, length-take n xs))
      ∙ ap (λ j. take j xs) (sym least)
]

assertion :
    (t : Bool) (k : Outcome (Cypress × List ℕ)) → (assert_that t >> k) ≡ (if t then k else abort)
assertion true k = refl
assertion false k = refl

module _ (realloc : Option (List ℕ) → ℕ → Option (List ℕ))
    (gives : (tmp : Option (List ℕ)) (n : ℕ)
      → (block : List ℕ) × (realloc tmp n ≡ some block) × (length block ≡ n)) where
  -- Peeking at the bytes of a transfer, none of them or some.
  peeked :
      (b : Cbuf) (n : ℕ)
      → IsValid b
      → n ≤ length (contents b)
      → n < 2 ^ 30
      → (ptr : Option Ptr) × (b' : Cbuf) × (peek realloc b n ≡ done (ok, ptr, b'))
        × (load_transfer b' ptr n ≡ done (take n (contents b)))
        × IsValid b'
        × (contents b' ≡ contents b)
        × (b'.size ≡ b.size)
  peeked b zero v le small = (none, b, peek-zero realloc b, refl, v, refl, refl)
  peeked b (suc n) v le small =
      let (ptr, b', peeks, p) =
        peek-IsPeeked realloc gives (suc n) v (omega arith) small
          (omega (arith, fill_level_lem v, length-contents b)) in
      let (v', same, size) = peeked-IsValid v p in (some ptr, b', peeks, p.bytes, v', same, size)

  write_pass_from :
      (u : Cypress) (answer : Bulk) (level n : ℕ) (ptr : Option Ptr) (b : Cbuf) (xs : List ℕ)
      (out : Outcome (Cypress × List ℕ))
      → fill_level u.write_buf % 2 ^ 32 ≡ level
      → (level == 0) ≡ false
      → transfer_len u level ≡ n
      → (n % 2 == 0) ≡ true
      → peek realloc u.write_buf n ≡ done (ok, ptr, b)
      → load_transfer b ptr n ≡ done xs
      → end_write (record u { write_buf = b }) xs answer ≡ out
      → usb_write_pass realloc u answer ≡ out
  unfolding usb_write_pass
  write_pass_from u answer level n ptr b xs out a c d e f g h = rw (a, c, d, e, f, g) h

  -- Where the write buffer is valid and at most of 2^29 bytes, and holds some: if the transfer moves
  -- `k` bytes or fewer, the device gets the oldest bytes, as many as the transfer was given and moves,
  -- and the buffer keeps the others; the transfer is given whole words, at most 64 packets.
  pub usb_write_pass-moved :
      (u : Cypress) (k : ℕ)
      → IsValid u.write_buf
      → u.write_buf.size ≤ 2 ^ 29
      → 0 < length (contents u.write_buf)
      → let n = transfer_len u (length (contents u.write_buf)) in
        (b : Cbuf) × (usb_write_pass realloc u (moved k)
          ≡ done (record u { write_buf = b }, take (min k n) (contents u.write_buf)))
        × (contents b ≡ drop (min k n) (contents u.write_buf))
        × IsValid b
        × (b.size ≡ u.write_buf.size)
        × (n % 2 ≡ 0)
        × (n ≤ 32768)
  unfolding get
  usb_write_pass-moved u k v small some_bytes =
      let q = contents u.write_buf in
      let n = transfer_len u (length q) in
      let (le, even, most) = transfer_len_lem u (length q) in
      let (ptr, b1, peeks, loads, v1, same, size) =
        peeked u.write_buf n v le (omega (arith, most)) in
      let xs = take k (take n q) in
      let sent : xs ≡ take (min k n) q = take-take k n q in
      let len : length xs ≡ min k n =
        omega (arith, length-take k (take n q), length-take n q, le) in
      let (s, left, v2, size2) = discard_refines (length xs) v1 in
      let enough : ltb (length (contents b1)) (length xs) ≡ false =
        ground (arith, len, le, ap (λ l. length l) same) in
      let b2 = (Cbuf.discard b1 (length xs)).1 in
      (
        b2,
        write_pass_from u (moved k) (length q) n ptr b1 (take n q) _
              (omega (arith, fill_level_lem v, length-contents u.write_buf, v.level_in, small))
              (ground arith) refl (ground (arith, even)) peeks loads refl
            ∙ ap (λ l. done (record u { write_buf = b2 }, l)) sent,
        left ∙ (rw enough refl ∙ (ap (λ l. drop (length xs) l) same ∙ ap (λ j. drop j q) len)),
        v2,
        size2 ∙ size,
        even,
        most,
      )

  -- If it fails, nothing is taken from the buffer, and a failure that moves bytes fails the assertion.
  pub usb_write_pass-usb_error :
      (u : Cypress) (k : ℕ)
      → IsValid u.write_buf
      → u.write_buf.size ≤ 2 ^ 29
      → 0 < length (contents u.write_buf)
      → (b : Cbuf) × (usb_write_pass realloc u (usb_error k)
          ≡ (if k == 0 then done (record u { write_buf = b }, []) else abort))
        × (contents b ≡ contents u.write_buf)
        × IsValid b
        × (b.size ≡ u.write_buf.size)
  usb_write_pass-usb_error u k v small some_bytes =
      let q = contents u.write_buf in
      let n = transfer_len u (length q) in
      let (le, even, most) = transfer_len_lem u (length q) in
      let (ptr, b1, peeks, loads, v1, same, size) =
        peeked u.write_buf n v le (omega (arith, most)) in
      (
        b1,
        write_pass_from u (usb_error k) (length q) n ptr b1 (take n q) _
            (omega (arith, fill_level_lem v, length-contents u.write_buf, v.level_in, small))
            (ground arith) refl (ground (arith, even)) peeks loads
            (assertion (k == 0) (done (record u { write_buf = b1 }, []))),
        same,
        v1,
        size,
      )

  read_pass_from :
      (u : Cypress) (device : List ℕ) (k n : ℕ) (ptr : Ptr) (b1 b2 b3 : Cbuf) (s : Status)
      → let num_packets = free_level u.read_buf % 2 ^ 32 / 512 in
        (if ltb 64 num_packets then 64 else num_packets) * 512 ≡ n
        → (n == 0) ≡ false
        → reserve realloc u.read_buf n ≡ done (ok, some ptr, b1)
        → store b1 ptr (take k (take n device)) ≡ done b2
        → commit b2 ptr (length (take k (take n device))) ≡ done (s, b3)
        → usb_read_pass realloc u device (moved k) ≡ done (record u { read_buf = b3 })
  unfolding usb_read_pass
  read_pass_from u device k n ptr b1 b2 b3 s a c d e f = rw (a, c, d, e, f) refl

  -- Where the read buffer is valid and below 2^30 bytes, and has room for a packet: the transfer is
  -- given room for whole packets, as many as there is room for and at most 64; what the device sends
  -- of that goes to the end of the buffer, in order, and leaves no object.
  pub usb_read_pass-moved :
      (u : Cypress) (device : List ℕ) (k : ℕ)
      → IsValid u.read_buf
      → u.read_buf.size < 2 ^ 30
      → 512 ≤ u.read_buf.size - length (contents u.read_buf)
      → let n = min 32768 ((u.read_buf.size - length (contents u.read_buf)) / 512 * 512) in
        (b : Cbuf) × (usb_read_pass realloc u device (moved k) ≡ done (record u { read_buf = b }))
        × (contents b ≡ contents u.read_buf ++ take (min k n) device)
        × IsValid b
        × (b.size ≡ u.read_buf.size)
  usb_read_pass-moved u device k v small room =
      let free = u.read_buf.size - length (contents u.read_buf) in
      let n = min 32768 (free / 512 * 512) in
      let level : free_level u.read_buf ≡ free =
        omega (arith, free_level_lem v, length-contents u.read_buf) in
      let level32 : free_level u.read_buf % 2 ^ 32 ≡ free = omega (arith, level, small) in
      let packets : (if ltb 64 (free_level u.read_buf % 2 ^ 32 / 512)
              then 64
              else free_level u.read_buf % 2 ^ 32 / 512)
            * 512
          ≡ n =
        rw level32 (ground arith) in
      let xs = take k (take n device) in
      let fits : n ≤ free_level u.read_buf = omega (arith, level) in
      let (ptr, b1, b2, b3, reserves, stores, commits, holds, valid, same) =
        reserve-store-commit realloc gives n xs (length xs) v (omega arith) fits
          (omega (arith, length-take k (take n device), length-take n device)) (omega arith) in
      (
        b3,
        read_pass_from u device k n ptr b1 b2 b3 ok packets (ground arith) reserves stores commits,
        holds
            ∙ ap (λ l. contents u.read_buf ++ l)
                (take_all (length xs) xs (omega arith) ∙ take-take k n device),
        valid,
        same,
      )
