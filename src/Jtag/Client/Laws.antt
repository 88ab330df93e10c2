-- ===== src/Jtag/Client/Laws.antt =====
-- What the client's calls do.
use demo_testbench.Base.{
  ℕ, ◌^◌, ◌≤◌, ◌<◌, ◌==◌, ltb, if◌then◌else◌, take, drop, min, List, ◌++◌, length,
}
use demo_testbench.Base.{
  ◌≡◌, refl, ap, subst, ◌∙◌, sym, arith, not, true, false, length-take, done, hang, ok, etimedout,
  inl, inr, ◌⊎◌, Status,
}
use demo_testbench.Cbuf
use demo_testbench.Cbuf.{Cbuf, fill_level}
use demo_testbench.Cbuf.Valid.{IsValid, fill_level_lem}
use demo_testbench.Cbuf.Contents.{contents, length-contents}
use demo_testbench.Cbuf.Fifo.{get, read_refines}
use demo_testbench.Uart.{min_int}
use demo_testbench.Uart.Thread.Laws.{min_int_lem}
use demo_testbench.Jtag.{Jtag}
use demo_testbench.Jtag.Client.{read_some, gb_jtag_read, gb_jtag_read_b, gb_jtag_write_b}
use demo_testbench.Waits.{Wake, wait_filled}
use demo_testbench.Waits.Laws.{
  arrive, Waited, wait_filled-Grown, BringBytes, wait_filled-BringBytes,
}
use demo_testbench.Waits.Writes.{write_all-Sent}

read_some_from :
    (b b' : Cbuf) (size : ℕ) (data' out : List ℕ) (size_read n : ℕ)
    → min_int (fill_level b) size ≡ n
    → Cbuf.read b data' n ≡ done (ok, out, b')
    → read_some b size data' size_read ≡ done (ok, out, n, b')
unfolding read_some
read_some_from b b' size data' out size_read n e r = rw (e, r) refl

-- The oldest bytes, as many as there are, up to `size`.
read_some_lem :
    (b : Cbuf) (size : ℕ) (data' : List ℕ) (size_read : ℕ)
    → IsValid b
    → b.size < 2 ^ 31
    → size < 2 ^ 31
    → size ≤ length data'
    → let n = min (length (contents b)) size in
      (b' : Cbuf) × (read_some b size data' size_read
        ≡ done (ok, take n (contents b) ++ drop n data', n, b'))
      × (contents b' ≡ drop n (contents b))
      × IsValid b'
      × (b'.size ≡ b.size)
unfolding get
read_some_lem b size data' size_read v small few room =
    let q = contents b in
    let n = min (length q) size in
    let level : fill_level b ≡ length q = fill_level_lem v ∙ sym (length-contents b) in
    let bound : length q < 2 ^ 31 = omega (arith, v.level_in, length-contents b) in
    let fits : ltb (length q) n ≡ false = ground arith in
    let taken : get q n ≡ (ok, take n q, drop n q) = rw fits refl in
    let len : length (take n q) ≡ n = omega (arith, length-take n q) in
    let (b', reads, left, valid, same) =
      read_refines data' n v (omega (arith, small)) (omega arith) in
    let least : min_int (fill_level b) size ≡ n =
      ap (λ k. min_int k size) level ∙ min_int_lem (length q) size bound few in
    (
      b',
      read_some_from b b' size data' (take n q ++ drop n data') size_read n least (
          reads
          ∙ (ap (λ r. done (r.0, r.1 ++ drop (length r.1) data', b')) taken
              ∙ ap (λ k. done (ok, take n q ++ drop k data', b')) len)),
      left ∙ ap (λ r. r.2) taken,
      valid,
      same,
    )

read_b_from :
    (u : Jtag) (size n : ℕ) (data' out : List ℕ) (size_read : ℕ) (ws ws' : List Wake) (b b' : Cbuf)
    (s : Status)
    → size ≤ 65536
    → wait_filled size ws u.read_buf ≡ done (b, ws')
    → read_some b size data' 0 ≡ done (ok, out, n, b')
    → (if not (size == n) then etimedout else ok) ≡ s
    → gb_jtag_read_b u ws 0 size data' size_read ≡ done (s, out, n, record u { read_buf = b' }, ws')
unfolding gb_jtag_read_b gb_jtag_read
read_b_from u size n data' out size_read ws ws' b b' s few waits reads says =
    let not_large : ltb 65536 size ≡ false = ground arith in rw (not_large, waits, reads, says) refl

-- On a valid ring of at most 64 KiB, with an array that has room for the bytes asked for, at most
-- 64 KiB: a blocking read goes on for ever, or it uses the first of the waits, until the ring
-- holds the bytes asked for or a wait gives up, and gives the oldest of the bytes that were there
-- and of those that these waits have brought behind them, up to size, in order, and leaves the
-- others (a wait for whose bytes there is no room brings none); it is a success exactly with all
-- bytes asked for, and a timeout with fewer.
pub gb_jtag_read_b_lem :
    (u : Jtag) (ws : List Wake) (size : ℕ) (data' : List ℕ) (size_read : ℕ)
    → IsValid u.read_buf
    → u.read_buf.size ≤ 65536
    → size ≤ 65536
    → size ≤ length data'
    → (gb_jtag_read_b u ws 0 size data' size_read ≡ hang)
      ⊎ ((used ws' : List Wake) × (b : Cbuf) × let q =
              arrive u.read_buf.size (contents u.read_buf) used in
            let n = min (length q) size in
            (ws ≡ used ++ ws')
            × Waited size u.read_buf.size (contents u.read_buf) used
            × (gb_jtag_read_b u ws 0 size data' size_read
                ≡ done (
                  if not (size == n) then etimedout else ok,
                  take n q ++ drop n data',
                  n,
                  record u { read_buf = b },
                  ws',
                ))
            × (contents b ≡ drop n q)
            × IsValid b
            × (b.size ≡ u.read_buf.size))
unfolding gb_jtag_read_b
gb_jtag_read_b_lem u ws size data' size_read v small few room =
    elim (wait_filled-Grown size ws u.read_buf v) [
      | inl waits ↦
          let not_large : ltb 65536 size ≡ false = ground arith in inl (rw (not_large, waits) refl)
      | inr (b, used, ws', parts, waits, g) ↦
          let (b', reads, left, valid, same) =
            read_some_lem b size data' 0 g.valid (omega (arith, g.same_size)) (omega arith) room in
          let q = arrive u.read_buf.size (contents u.read_buf) used in
          let n = min (length q) size in
          let reads' =
            subst
              (λ l.
                read_some b size data' 0
                ≡ done (
                  ok,
                  take (min (length l) size) l ++ drop (min (length l) size) data',
                  min (length l) size,
                  b',
                ))
              g.holds reads in
          inr (
            used,
            ws',
            b',
            (
              parts,
              g.ended,
              read_b_from u size n data' _ size_read ws ws' b b' _ few waits reads' refl,
              left ∙ ap (λ l. drop (min (length l) size) l) g.holds,
              valid,
              same ∙ g.same_size,
            ),
          )
    ]

-- On such a ring and with such an array: if each wait that is made ends with a change and brings no more
-- bytes than there is room for at that time, until the ring holds the bytes asked for, a blocking read
-- succeeds, with all of them.
pub gb_jtag_read_b-BringBytes :
    (u : Jtag) (ws : List Wake) (size : ℕ) (data' : List ℕ) (size_read : ℕ)
    → IsValid u.read_buf
    → u.read_buf.size ≤ 65536
    → size ≤ 65536
    → size ≤ length data'
    → BringBytes size u.read_buf.size (length (contents u.read_buf)) ws
    → (out : List ℕ) × (u' : Jtag) × (ws' : List Wake) × (gb_jtag_read_b u ws 0 size data' size_read
        ≡ done (ok, out, size, u', ws'))
gb_jtag_read_b-BringBytes u ws size data' size_read v small few room brings =
    let (b, ws', waits, v1, size1, full) = wait_filled-BringBytes size ws u.read_buf v brings in
    let (b', reads, left, valid, same) =
      read_some_lem b size data' 0 v1 (omega (arith, size1)) (omega arith) room in
    let all : min (length (contents b)) size ≡ size = omega (arith, full) in
    let reads' =
      subst (λ n. read_some b size data' 0 ≡ done (ok, take n (contents b) ++ drop n data', n, b'))
        all reads in
    let test : (size == size) ≡ true = ground arith in
    let good : (if not (size == size) then etimedout else ok) ≡ ok = rw test refl in
    (
      _,
      record u { read_buf = b' },
      ws',
      read_b_from u size size data' _ size_read ws ws' b b' ok few waits reads' good,
    )

-- On a valid ring below 2^31 bytes, and however the waits end: a blocking write goes on for ever, or
-- succeeds with all its bytes in the ring, in order, behind those that were there, of which the thread
-- has taken some of the oldest.
pub gb_jtag_write_b-Sent :
    (u : Jtag) (ks : List ℕ) (size : ℕ) (data' : List ℕ) (size_written : ℕ)
    → IsValid u.write_buf
    → u.write_buf.size < 2 ^ 31
    → size ≤ length data'
    → (gb_jtag_write_b u ks 0 size data' size_written ≡ hang)
      ⊎ ((b : Cbuf) × (ks' : List ℕ) × (gone : ℕ) × (gb_jtag_write_b u ks 0 size data' size_written
            ≡ done (ok, size, record u { write_buf = b }, ks'))
          × (contents b ≡ drop gone (contents u.write_buf ++ take size data'))
          × IsValid b
          × (b.size ≡ u.write_buf.size))
unfolding gb_jtag_write_b
gb_jtag_write_b-Sent u ks size data' size_written v small room =
    let enough : ltb (length data') size ≡ false = ground arith in
    let len : length (take size data') ≡ size = omega (arith, length-take size data') in
    let whole : (size == size) ≡ true = ground arith in
    elim (write_all-Sent ks u.write_buf (take size data') v small) [
      | inl waits ↦ inl (rw (enough, waits) refl)
      | inr (b, ks', ends, v', same, (gone, holds)) ↦
          inr (b, ks', gone, rw (enough, ends, len, whole) refl, holds, v', same)
    ]
