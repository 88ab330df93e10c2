-- ===== src/Uart/Thread/Laws.antt =====
-- What a round of the thread does to the rings and the line.
use mathlib.Core.List.{append_assoc, append-nil}
use demo_testbench.Base.{
  take_front, ◌-◌, true, ℕ, suc, ◌+◌, ◌*◌, ◌%◌, ◌^◌, ◌≤◌, ◌<◌, ◌==◌, ltb, take, drop,
}
use demo_testbench.Base.{List, [], ◌∷◌, ◌++◌, length, ◌≡◌, refl, ap, ◌∙◌, inl, inr, sub_size, min}
use demo_testbench.Base.{
  not, assert_that, ◌>>◌, done, ◌>>=◌, ok, arith, Bool-cases, false, sym, length-take,
}
use demo_testbench.Cbuf
use demo_testbench.Cbuf.{Cbuf, fill_level, free_level}
use demo_testbench.Cbuf.Valid.{IsValid, fill_level_lem}
use demo_testbench.Cbuf.Contents.{contents, length-contents}
use demo_testbench.Cbuf.Fifo.{get, read_refines}
use demo_testbench.Uart.{Uart, marker, no_time, send, send_words, min_int, tmp_buffer_size}
use demo_testbench.Uart.Serial.{Event}
use demo_testbench.Uart.Serial.Laws.{IsReady, IsReady-le, write_blocking_lem}
use demo_testbench.Uart.Items.{Item, word, encode}
use demo_testbench.Uart.Thread.{write_step, is_einval}

-- What the thread writes for a list of words.
abbrev pub words : List ℕ → List Item
words [] = []
words (w ∷ ws) = word w ∷ words ws

-- A backend that has sent more.
abbrev pub with_sent : Uart → List ℕ → List Event → Uart
with_sent u sent' writes' = record u { line = record (u.line) { sent = sent'; writes = writes' } }

-- A write of the thread's, on a terminal that takes the bytes.
pub send_lem :
    (u : Uart) (xs : List ℕ) (more : ℕ)
    → 0 < length xs
    → IsReady (length xs + more) u.line.writes
    → (writes' : List Event) × (send u xs ≡ done (ok, with_sent u (u.line.sent ++ xs) writes'))
      × IsReady more writes'
unfolding send
send_lem u xs more pos r =
    let (writes', runs, r') = write_blocking_lem u.line no_time xs more pos r in
    (writes', rw runs refl, r')

send_one :
    (u : Uart) (w : ℕ) (more : ℕ)
    → IsReady (suc more) u.line.writes
    → (writes' : List Event) × (send u (w ∷ [])
        ≡ done (ok, with_sent u (u.line.sent ++ w ∷ []) writes'))
      × IsReady more writes'
send_one u w more r =
    send_lem u (w ∷ []) more (omega arith)
      (IsReady-le (suc more) (length (w ∷ []) + more) u.line.writes (omega arith) r)

-- If the terminal takes that many bytes, the thread's loop writes each word once and the marker
-- twice, in order: the bytes that the receiver's side of the protocol takes apart again.
pub send_words-encode :
    (ws : List ℕ) (u : Uart) (more : ℕ)
    → IsReady (2 * length ws + more) u.line.writes
    → (writes' : List Event) × (send_words u ws
        ≡ done (with_sent u (u.line.sent ++ encode (words ws)) writes'))
      × IsReady more writes'
unfolding send_words
send_words-encode [] u more r = (
  u.line.writes,
  rw (append-nil u.line.sent) refl,
  IsReady-le (2 * 0 + more) more u.line.writes (omega arith) r,
)
send_words-encode (w ∷ ws) u more r =
    let (writes1, runs1, r1) = send_one u w (suc (2 * length ws + more)) (rw count at r) in
    let u1 = with_sent u (u.line.sent ++ (w ∷ [])) writes1 in
    elim (Bool-cases (w == marker)) [
      | inr plain ↦
          let (writes', runs, r') = send_words-encode ws u1 more (
            IsReady-le (suc (2 * length ws + more)) (2 * length ws + more) writes1 (omega arith)
              r1) in
          (
            writes',
            rw (runs1, plain, runs, append_assoc u.line.sent (w ∷ []) (encode (words ws))) refl,
            r',
          )
      | inl doubled ↦
          let (writes2, runs2, r2) = send_one u1 w (2 * length ws + more) r1 in
          let u2 = with_sent u1 (u1.line.sent ++ (w ∷ [])) writes2 in
          let (writes', runs, r') = send_words-encode ws u2 more r2 in
          let same : w ≡ marker = ground arith in
          let sent1 = u.line.sent ++ (w ∷ []) in
          let bytes =
            append_assoc sent1 (w ∷ []) (encode (words ws))
            ∙ (append_assoc u.line.sent (w ∷ []) (w ∷ encode (words ws))
                ∙ ap (λ k. u.line.sent ++ (k ∷ k ∷ encode (words ws))) same) in
          (
            writes',
            rw (runs1, doubled, runs2, runs) (ap (λ l. done (with_sent u l writes')) bytes),
            r',
          )
    ]
  where
    count : 2 * suc (length ws) + more ≡ suc (suc (2 * length ws + more))
    count = omega arith

-- On numbers that fit in an `int`, `min` of util.h is the minimum.
pub min_int_lem : (a b : ℕ) → a < 2 ^ 31 → b < 2 ^ 31 → min_int a b ≡ min a b
unfolding min_int
min_int_lem a b ha hb =
    let ea : a % 2 ^ 32 ≡ a = omega arith in
    let eb : b % 2 ^ 32 ≡ b = omega arith in
    let ga : (a + 2 ^ 31) % 2 ^ 32 ≡ a + 2 ^ 31 = omega arith in
    let gb : (b + 2 ^ 31) % 2 ^ 32 ≡ b + 2 ^ 31 = omega arith in rw (ea, eb, ga, gb) (ground arith)

-- A number that becomes a negative `int` is the minimum, and a huge `size_t`.
pub min_int_large :
    (a b : ℕ) → a < 2 ^ 31 → 2 ^ 31 ≤ b → b < 2 ^ 32 → min_int a b ≡ b + (2 ^ 64 - 2 ^ 32)
unfolding min_int
min_int_large a b ha lo hi =
    let ea : a % 2 ^ 32 ≡ a = omega arith in
    let eb : b % 2 ^ 32 ≡ b = omega arith in
    let ga : (a + 2 ^ 31) % 2 ^ 32 ≡ a + 2 ^ 31 = omega arith in
    let gb : (b + 2 ^ 31) % 2 ^ 32 ≡ b - 2 ^ 31 = omega arith in
    let less : ltb (b - 2 ^ 31) (a + 2 ^ 31) ≡ true = ground arith in
    let negative : ltb b (2 ^ 31) ≡ false = ground arith in rw (ea, eb, ga, gb, less, negative) refl

-- How much a round of the thread writes: what there is, what the debt allows, and at most what
-- the temporary buffer holds.
abbrev pub tranche_size : Uart → ℕ
tranche_size u = min (length (contents u.output_buffer)) (min u.debt tmp_buffer_size)

-- What a write of the thread comes to.
pub record Wrote (u v : Uart) (n more : ℕ) : Type 0 where
  pub sent_words : v.line.sent ≡ u.line.sent ++ encode (words (take n (contents u.output_buffer)))
  pub left_in_ring : contents v.output_buffer ≡ drop n (contents u.output_buffer)
  pub ring_valid : IsValid v.output_buffer
  pub debt_paid : v.debt + n ≡ u.debt
  pub answers_left : IsReady more v.line.writes
  pub same_input : v.input_buffer ≡ u.input_buffer
  pub same_credit : v.credit ≡ u.credit

Wrote-none :
    (u : Uart) (n more : ℕ)
    → n ≡ 0
    → IsValid u.output_buffer
    → IsReady (512 + more) u.line.writes
    → Wrote u u n more
Wrote-none u n more z v r = rw z (record {
  sent_words = sym (append-nil u.line.sent);
  left_in_ring = refl;
  ring_valid = v;
  debt_paid = omega arith;
  answers_left = IsReady-le (512 + more) more u.line.writes (omega arith) r;
  same_input = refl;
  same_credit = refl;
})

-- The branch that writes a tranche of `n` words.
write_tranche :
    (u : Uart) (buffer : List ℕ) (n more : ℕ)
    → IsValid u.output_buffer
    → u.output_buffer.size < 2 ^ 31
    → n ≤ length (contents u.output_buffer)
    → n ≤ tmp_buffer_size
    → n ≤ u.debt
    → u.debt < 2 ^ 31
    → length buffer ≡ tmp_buffer_size
    → IsReady (512 + more) u.line.writes
    → (v : Uart) × ((Cbuf.read u.output_buffer buffer n >>= λ (s, buffer', buf).
          assert_that (not (is_einval s))
          >> (send_words (record u { output_buffer = buf }) (take n buffer') >>= λ u'.
              done (record u' { debt = sub_size u'.debt n })))
        ≡ done v)
      × Wrote u v n more
unfolding get
write_tranche u buffer n more ok_ring ring_small le small paid debt room r =
    let q = contents u.output_buffer in
    let fits : ltb (length q) n ≡ false = ground arith in
    let len : length (take n q) ≡ n = omega (arith, length-take n q) in
    let taken : get q n ≡ (ok, take n q, drop n q) = rw fits refl in
    let (buf, reads, left, valid, same) =
      read_refines buffer n ok_ring (omega arith) (omega arith) in
    let u1 = record u { output_buffer = buf } in
    let (writes', sends, r') =
      send_words-encode (take n q) u1 more
        (IsReady-le (512 + more) (2 * length (take n q) + more) u.line.writes (omega arith) r) in
    let cut = take_front (take n q) (drop (length (take n q)) buffer) n len in
    (
      record u1 {
        line = record (u.line) {
          sent = u.line.sent ++ encode (words (take n q));
          writes = writes';
        };
        debt = sub_size u.debt n;
      },
      rw (reads, taken, cut, sends) refl,
      record {
        sent_words = refl;
        left_in_ring = rw taken at left;
        ring_valid = valid;
        debt_paid = omega arith;
        answers_left = r';
        same_input = refl;
        same_credit = refl;
      },
    )

-- With a valid ring below 2^31 bytes, a debt below 2^31 and a terminal that takes the bytes, the
-- write part of a round takes the most it may from the output ring, writes it escaped and in
-- order, leaves the rest in the ring, and pays its debt for exactly those words.
pub write_step-encode :
    (u : Uart) (buffer : List ℕ) (more : ℕ)
    → IsValid u.output_buffer
    → u.output_buffer.size < 2 ^ 31
    → u.debt < 2 ^ 31
    → length buffer ≡ tmp_buffer_size
    → IsReady (512 + more) u.line.writes
    → (v : Uart) × (write_step u buffer ≡ done v) × Wrote u v (tranche_size u) more
unfolding write_step
write_step-encode u buffer more ok_ring small debt room r =
    let level : fill_level u.output_buffer ≡ length (contents u.output_buffer) =
      fill_level_lem ok_ring ∙ sym (length-contents u.output_buffer) in
    let bound : length (contents u.output_buffer) < 2 ^ 31 =
      omega (arith, ok_ring.level_in, length-contents u.output_buffer) in
    let size = min_int_lem u.debt tmp_buffer_size debt (omega arith) in
    let n =
      min_int_lem (length (contents u.output_buffer)) (min u.debt tmp_buffer_size) bound
        (omega arith) in
    rw (level, size, n)
      (elim (Bool-cases (ltb 0 u.debt)) [
        | inr none ↦ rw none (u, refl, Wrote-none u (tranche_size u) more (ground arith) ok_ring r)
        | inl some ↦ elim (Bool-cases (ltb 0 (length (contents u.output_buffer)))) [
          | inr empty ↦
              rw (some, empty)
                (u, refl, Wrote-none u (tranche_size u) more (ground arith) ok_ring r)
          | inl full ↦
              rw (some, full)
                (write_tranche u buffer (tranche_size u) more ok_ring small (omega arith)
                  (omega arith) (omega arith) debt room r)
        ]
      ])
