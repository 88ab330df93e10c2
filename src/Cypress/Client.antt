-- ===== src/Cypress/Client.antt =====
-- What the client's calls do.
use demo_testbench.Base.{
  ◌^◌, ℕ, ◌-◌, ◌≤◌, ◌<◌, ◌==◌, ltb, leb, if◌then◌else◌, min, List, [], ◌∷◌, ◌++◌, length, take,
  drop,
}
use demo_testbench.Base.{
  done, hang, ok, ◌≡◌, refl, sym, ap, ◌∙◌, arith, false, Bool-cases, inl, inr, length-take,
}
use demo_testbench.Cbuf
use demo_testbench.Cbuf.{Cbuf, fill_level, free_level}
use demo_testbench.Cbuf.Valid.{IsValid, fill_level_lem, free_level_lem}
use demo_testbench.Cbuf.Contents.{contents, length-contents}
use demo_testbench.Cbuf.Fifo.{get, read_refines}
use demo_testbench.Cypress.{
  Cypress, post_once, gb_cypressfx2_read, gb_cypressfx2_write, write_rounds, gb_cypressfx2_write_b,
}

-- The read, given what the call of the ring comes to.
read_from :
    (u : Cypress) (size : ℕ) (data' out : List ℕ) (size_read n : ℕ) (b : Cbuf)
    → (if ltb (fill_level u.read_buf) size then fill_level u.read_buf else size) ≡ n
    → Cbuf.read u.read_buf data' n ≡ done (ok, out, b)
    → gb_cypressfx2_read u 0 size data' size_read
      ≡ done (
        ok,
        out,
        n,
        record u {
          read_buf = b;
          read_notification_sem =
              if leb 512 (free_level b)
              then post_once u.read_notification_sem
              else u.read_notification_sem;
        },
      )
unfolding gb_cypressfx2_read
read_from u size data' out size_read n b e r =
    rw (e, r)
      (elim (Bool-cases (leb 512 (free_level b))) [
        | inl packet ↦ rw packet refl
        | inr full ↦ rw full refl
      ])

-- On a valid ring of at most 2^31 bytes, with an array that has room for the bytes asked for, a read gives as many of the
-- oldest bytes as there are, up to `size`, reports how many, leaves the others in the ring, and wakes
-- the reading thread exactly if a packet fits in the ring then.
pub gb_cypressfx2_read_lem :
    (u : Cypress) (size : ℕ) (data' : List ℕ) (size_read : ℕ)
    → IsValid u.read_buf
    → u.read_buf.size ≤ 2 ^ 31
    → size ≤ length data'
    → let n = min (length (contents u.read_buf)) size in
      (b : Cbuf) × (gb_cypressfx2_read u 0 size data' size_read
        ≡ done (
          ok,
          take n (contents u.read_buf) ++ drop n data',
          n,
          record u {
            read_buf = b;
            read_notification_sem =
                if leb 512 (b.size - length (contents b))
                then post_once u.read_notification_sem
                else u.read_notification_sem;
          },
        ))
      × (contents b ≡ drop n (contents u.read_buf))
      × IsValid b
      × (b.size ≡ u.read_buf.size)
unfolding get
gb_cypressfx2_read_lem u size data' size_read v small room =
    let q = contents u.read_buf in
    let n = min (length q) size in
    let level : fill_level u.read_buf ≡ length q =
      fill_level_lem v ∙ sym (length-contents u.read_buf) in
    let least : (if ltb (fill_level u.read_buf) size then fill_level u.read_buf else size) ≡ n =
      rw level (ground arith) in
    let fits : ltb (length q) n ≡ false = ground arith in
    let taken : get q n ≡ (ok, take n q, drop n q) = rw fits refl in
    let len : length (take n q) ≡ n = omega (arith, length-take n q) in
    let (b, reads, left, valid, same) =
      read_refines data' n v (omega (arith, small)) (omega arith) in
    let free : free_level b ≡ b.size - length (contents b) =
      omega (arith, free_level_lem valid, length-contents b) in
    let reads' =
      reads
      ∙ (ap (λ r. done (r.0, r.1 ++ drop (length r.1) data', b)) taken
          ∙ ap (λ k. done (ok, take n q ++ drop k data', b)) len) in
    (
      b,
      read_from u size data' (take n q ++ drop n data') size_read n b least reads'
          ∙ ap
              (λ k. done (
                ok,
                take n q ++ drop n data',
                n,
                record u {
                  read_buf = b;
                  read_notification_sem =
                      if leb 512 k
                      then post_once u.read_notification_sem
                      else u.read_notification_sem;
                },
              ))
              free,
      left ∙ ap (λ r. r.2) taken,
      valid,
      same,
    )

write_rounds_other :
    (ks : List ℕ) (u : Cypress) (channel : ℕ) (xs : List ℕ)
    → 0 < channel
    → 0 < length xs
    → write_rounds ks u channel xs ≡ hang
unfolding write_rounds gb_cypressfx2_write
write_rounds_other [] u channel xs other some_bytes =
    let test : (channel == 0) ≡ false = ground arith in
    let left : (0 == length xs) ≡ false = ground arith in rw (test, left) refl
write_rounds_other (k ∷ ks) u channel xs other some_bytes =
    let test : (channel == 0) ≡ false = ground arith in
    let left : (0 == length xs) ≡ false = ground arith in
    rw (test, left)
      (write_rounds_other ks (record u { write_buf = (Cbuf.discard u.write_buf k).1 }) channel xs
        other some_bytes)

-- A blocking write of some bytes to another channel than 0 never ends, however many rounds it makes
-- and whatever the thread does: each round fails and writes nothing, and the loop does not look at that.
pub gb_cypressfx2_write_b-hang :
    (u : Cypress) (ks : List ℕ) (channel size : ℕ) (data' : List ℕ)
    → 0 < channel
    → 0 < size
    → size ≤ length data'
    → gb_cypressfx2_write_b u ks channel size data' ≡ hang
unfolding gb_cypressfx2_write_b
gb_cypressfx2_write_b-hang u ks channel size data' other some_bytes room =
    let enough : ltb (length data') size ≡ false = ground arith in
    rw
      (
        enough,
        write_rounds_other ks u channel (take size data') other
            (omega (arith, length-take size data')),
      )
      refl
