-- ===== src/Uart/Thread/Read.antt =====
-- The read part of a round: with room in the ring, and with a full ring.
use demo_testbench.Base.{ℕ, suc, ◌+◌, ◌-◌, ◌^◌, ◌≤◌, ◌<◌, ◌==◌, ltb, if◌then◌else◌, take, drop}
use demo_testbench.Base.{
  List, [], ◌∷◌, ◌++◌, length, ◌≡◌, ◌≢◌, refl, ◌∙◌, inl, inr, sub_size, add_size, min,
}
use demo_testbench.Base.{done, abort, fault, ok, arith, Bool-cases, true, false, length-take}
use demo_testbench.Base.{take-append-drop}
use demo_testbench.Cbuf.{fill_level, free_level}
use demo_testbench.Cbuf.Valid.{IsValid, fill_level_lem, free_level_lem}
use demo_testbench.Cbuf.Contents.{contents, length-contents}
use demo_testbench.Uart.{
  Uart, marker, poll, tmp_buffer_size, uart_max_tranche, parse_buffer, send_credit,
}
use demo_testbench.Uart.{credit_message}
use demo_testbench.Uart.Serial.{Event, Timeval, give}
use demo_testbench.Uart.Serial.Laws.{IsReady}
use demo_testbench.Uart.Items.{
  Item, word, credit_given, encode_item, encode, AreItems, IsCut, with_line,
}
use demo_testbench.Uart.Parse.{parse_buffer-encode}
use demo_testbench.Uart.Deliver.{Delivered, words_of, deliver-words_of}
use demo_testbench.Uart.Thread.{read_step, full_message, credit_step}
use demo_testbench.Uart.Thread.Laws.{min_int_lem, send_lem, with_sent}

-- A chunk of `n` bytes has at most `n` words, the last of which may have begun in it.
words_of-le : (its : List Item) (n : ℕ) → IsCut its n → length (words_of its) ≤ n
words_of-le [] n cut = omega arith
words_of-le (word w ∷ its) n (pos, inl (le, none_left)) = rw none_left (omega arith)
words_of-le (word w ∷ its) n (pos, inr (le, cut)) =
    let size : 1 ≤ length (encode_item (word w)) = elim (Bool-cases (w == marker)) [
      | inl same ↦ rw same (omega arith)
      | inr other ↦ rw other (omega arith)
    ] in
    omega (arith, words_of-le its (n - length (encode_item (word w))) cut)
words_of-le (credit_given first second ∷ its) n (pos, inl (le, none_left)) =
    rw none_left (omega arith)
words_of-le (credit_given first second ∷ its) n (pos, inr (le, cut)) =
    omega (arith, words_of-le its (n - 3) cut)

-- How many bytes a round asks for with room in the ring.
abbrev pub chunk_size : Uart → ℕ
chunk_size u = min (u.input_buffer.size - length (contents u.input_buffer)) tmp_buffer_size

-- The terminal's answer and the bytes it moves.
abbrev pub chunk : Uart → ℕ → List ℕ
chunk u k = take (min k (chunk_size u)) u.line.pending

parse_some :
    (u : Uart) (got : List ℕ)
    → length got ≤ tmp_buffer_size
    → (if ltb tmp_buffer_size (length got)
        then fault
        else if ltb 0 (length got)
        then parse_buffer u got
        else done u)
      ≡ parse_buffer u got
unfolding parse_buffer
parse_some u [] h = refl
parse_some u (a ∷ got) h =
    let small : ltb tmp_buffer_size (suc (length got)) ≡ false = ground arith in
    let some : ltb 0 (suc (length got)) ≡ true = ground arith in rw (small, some) refl

-- A round with room in the ring polls the terminal and parses what it gives.
read_step-parse :
    (u : Uart) (k : ℕ) (now : Timeval) (es : List Event)
    → IsValid u.input_buffer
    → u.input_buffer.size < 2 ^ 31
    → length (contents u.input_buffer) < u.input_buffer.size
    → u.line.reads ≡ give k now ∷ es
    → read_step u
      ≡ parse_buffer (with_line u (drop (min k (chunk_size u)) u.line.pending) es) (chunk u k)
unfolding read_step poll
read_step-parse u k now es v small room answer =
    let free : free_level u.input_buffer ≡ u.input_buffer.size - length (contents u.input_buffer) =
      omega (arith, free_level_lem v, length-contents u.input_buffer) in
    let size =
      min_int_lem (u.input_buffer.size - length (contents u.input_buffer)) tmp_buffer_size
        (omega arith) (omega arith) in
    let some : (u.input_buffer.size - length (contents u.input_buffer) == 0) ≡ false =
      ground arith in
    rw (free, some, size, answer)
      (parse_some (with_line u (drop (min k (chunk_size u)) u.line.pending) es) (chunk u k)
        (omega (arith, length-take (min k (chunk_size u)) u.line.pending)))

-- With a valid ring below 2^31 bytes that is not full, bytes on the line that make up items, an
-- answer that ends its bytes within or at the end of the last item, of whose further answers two
-- move a byte before any error, and credit that the logic had for all words, the read part of a
-- round takes all items and no more from the line, and puts their words into the ring, which has
-- room for them.
pub read_step-encode :
    (its : List Item) (u : Uart) (k : ℕ) (now : Timeval) (es : List Event) (tail : List ℕ)
    → IsValid u.input_buffer
    → u.input_buffer.size < 2 ^ 31
    → length (contents u.input_buffer) < u.input_buffer.size
    → AreItems its
    → u.line.pending ≡ encode its ++ tail
    → u.line.reads ≡ give k now ∷ es
    → IsCut its (length (chunk u k))
    → length (words_of its) ≤ u.credit
    → IsReady 2 es
    → (v : Uart) × (read_step u ≡ done v) × (v.line.pending ≡ tail) × Delivered u v its
read_step-encode its u k now es tail v small room items bytes answer cut credit r =
    let u' = with_line u (drop (min k (chunk_size u)) u.line.pending) es in
    let fits = words_of-le its (length (chunk u k)) cut in
    let (w, all, d) =
      deliver-words_of its u' items v
        (omega (arith, fits, length-take (min k (chunk_size u)) u.line.pending)) credit in
    let whole = take-append-drop (min k (chunk_size u)) u.line.pending ∙ bytes in
    let (reads', runs) = parse_buffer-encode its u' w (chunk u k) tail items all cut whole r in
    (
      with_line w tail reads',
      read_step-parse u k now es v small room answer ∙ runs,
      refl,
      record {
        in_ring = d.in_ring;
        ring_valid = d.ring_valid;
        same_size = d.same_size;
        credit_used = d.credit_used;
        debt_raised = d.debt_raised;
        same_output = d.same_output;
      },
    )

-- With the ring full, the thread aborts on any byte but the marker.
read_step_full :
    (u : Uart) (w : ℕ) (rest : List ℕ) (k : ℕ) (now : Timeval) (es : List Event)
    → IsValid u.input_buffer
    → fill_level u.input_buffer ≡ u.input_buffer.size
    → u.line.pending ≡ w ∷ rest
    → w ≢ marker
    → u.line.reads ≡ give (suc k) now ∷ es
    → read_step u ≡ abort
unfolding read_step poll full_message
read_step_full u w rest k now es v full pending other answer =
    let none : free_level u.input_buffer ≡ 0 = omega (arith, free_level_lem v, fill_level_lem v) in
    let one : min (suc k) 1 ≡ 1 = omega arith in
    let plain : (w == marker) ≡ false = ground arith in rw (none, answer, one, pending, plain) refl

send_credit_lem :
    (u : Uart) (tranche more : ℕ)
    → IsReady (3 + more) u.line.writes
    → (writes' : List Event) × (send_credit u tranche
        ≡ done (ok, with_sent u (u.line.sent ++ credit_message tranche) writes'))
      × IsReady more writes'
unfolding send_credit credit_message
send_credit_lem u tranche more r =
    let (writes', sends, r') = send_lem u (credit_message tranche) more (omega arith) r in
    (writes', rw sends refl, r')

-- When the reader is slow: with the ring full and the credit below `buffer_size` less a tranche,
-- the thread still gives the logic credit for a tranche of words, and when the next byte to arrive
-- is a word other than the marker, which that credit allows, the thread's assertion fails.
pub credit_step-read_step :
    (u : Uart) (w : ℕ) (rest : List ℕ) (k : ℕ) (now : Timeval) (es : List Event) (more : ℕ)
    → IsValid u.input_buffer
    → fill_level u.input_buffer ≡ u.input_buffer.size
    → uart_max_tranche + u.credit < u.buffer_size
    → u.buffer_size < 2 ^ 64
    → IsReady (3 + more) u.line.writes
    → u.line.pending ≡ w ∷ rest
    → w ≢ marker
    → u.line.reads ≡ give (suc k) now ∷ es
    → (v : Uart) × (credit_step u ≡ done v)
      × (v.credit ≡ u.credit + uart_max_tranche)
      × (v.line.sent ≡ u.line.sent ++ credit_message uart_max_tranche)
      × (read_step v ≡ abort)
unfolding credit_step
credit_step-read_step u w rest k now es more v full low bound r pending other answer =
    let low' : ltb u.credit (sub_size u.buffer_size uart_max_tranche) ≡ true = ground arith in
    let raised : add_size u.credit uart_max_tranche ≡ u.credit + uart_max_tranche = omega arith in
    let u1 = record u { credit = u.credit + uart_max_tranche } in
    let (writes', sends, r') = send_credit_lem u1 uart_max_tranche more r in
    let u2 = with_sent u1 (u.line.sent ++ credit_message uart_max_tranche) writes' in
    (
      u2,
      rw (low', raised, sends) refl,
      refl,
      refl,
      read_step_full u2 w rest k now es v full pending other answer,
    )
