-- ===== src/Jtag/Thread/Pass.antt =====
-- A whole pass of the communication thread: the request is built, in a block that is large enough, and
-- the answer is taken.
use native.Mathlib.Nat.{div-mul-le_self, mul-le-mul, mul-le-mul_right}
use demo_testbench.Base.{
  ℕ, zero, suc, ◌+◌, ◌-◌, ◌*◌, ◌/◌, ◌%◌, ◌^◌, ◌≤◌, ◌<◌, min, ltb, leb, if◌then◌else◌,
}
use demo_testbench.Base.{List, [], length, take, drop}
use demo_testbench.Base.{Option, some, done, ok, enomem}
use demo_testbench.Base.{◌≡◌, refl, ap, ◌∙◌, sym, arith, Bool-cases, inl, inr, true}
use demo_testbench.Cbuf.{Cbuf, fill_level, free_level}
use demo_testbench.Cbuf.Valid.{IsValid, fill_level_lem, free_level_lem}
use demo_testbench.Cbuf.Contents.{contents, length-contents}
use demo_testbench.Jtag.{
  Jtag, to_bytes, calc_payload_len, grow_buf, adjust_wanted, build_jtag_req, parse_jtag_resp,
}
use demo_testbench.Jtag.Words.{copy_from_word}
use demo_testbench.Jtag.Words.Laws.{max_wsize_lem}
use demo_testbench.Jtag.Request.{Requested, build_jtag_req-Requested, room_lem}
use demo_testbench.Jtag.Response.{Exchanged, parse_jtag_resp-Exchanged}
use demo_testbench.Jtag.Thread.{build_loop, thread_step, take_answer, retry_or_end}
use demo_testbench.Jtag.Thread.Laws.{calc_payload_len_lem, adjust_wanted_narrow}

-- The larger of the two payloads.
abbrev most : ℕ → ℕ → ℕ
most wr_words rd_words = if ltb rd_words wr_words then wr_words else rd_words

grow_buf-larger :
    (size : ℕ)
    → 0 < size
    → size < 2 ^ 63
    → (size < grow_buf size) × (grow_buf size < 2 ^ 64) × (grow_buf size ≤ size + size + 32 * 1024)
unfolding grow_buf
grow_buf-larger size pos small = ground arith

min_le : (a b : ℕ) → min a b ≤ a
min_le a b = omega arith

-- Whole words have no more bytes than there are.
whole_words : (bytes width wanted : ℕ) → min (bytes / width) wanted * width ≤ bytes
whole_words bytes width wanted =
    let few = mul-le-mul_right width (min_le (bytes / width) wanted) in
    omega (arith, few, div-mul-le_self bytes width)

total_small : (words width : ℕ) → words ≤ 2 ^ 16 → width < 4 → (words + 4) * width ≤ 2 ^ 19
total_small words width h n =
    let most_words : words + 4 ≤ 2 ^ 16 + 4 = omega arith in
    let most_width : width ≤ 3 = omega arith in omega (arith, mul-le-mul most_words most_width)

-- What the target answers to a request: as many bytes as were sent, the last two words of which
-- count the words taken and those sent back.
pub record Answers (width acked received : ℕ) (req resp : List ℕ) : Type 0 where
  pub as_long : length resp ≡ length req
  pub says_acked : copy_from_word width resp (length resp - width * 2) ≡ done acked
  pub says_received : copy_from_word width resp (length resp - width) ≡ done received

module _ (realloc : Option (List ℕ) → ℕ → Option (List ℕ))
    (gives : (tmp : Option (List ℕ)) (n : ℕ)
      → (block : List ℕ) × (realloc tmp n ≡ some block) × (length block ≡ n)) where
  -- A block that is too small.
  build_jtag_req-enomem :
      (u : Jtag) (wr_words rd_words size : ℕ)
      → wr_words < 2 ^ 30
      → rd_words < 2 ^ 30
      → (most wr_words rd_words + 4) * u.target_word_width < 2 ^ 30
      → size < (most wr_words rd_words + 4) * u.target_word_width
      → build_jtag_req realloc u wr_words rd_words size ≡ done (enomem, [], u)
  unfolding build_jtag_req to_bytes
  build_jtag_req-enomem u wr_words rd_words size hw hr small short =
      let width = u.target_word_width in
      let m : ℕ = most wr_words rd_words in
      let m_small : m < 2 ^ 30 = ground arith in
      let sum : (m + 4) % 2 ^ 32 ≡ m + 4 = omega arith in
      let bytes : (m + 4) * width % 2 ^ 32 ≡ (m + 4) * width = omega arith in
      let full : ltb size ((m + 4) * width) ≡ true = ground arith in
      rw (max_wsize_lem wr_words rd_words (omega arith) (omega arith), sum, bytes, full) refl

  -- With as much fuel as a request has bytes, and one more, the request is built in the end, and the
  -- block is then large enough.
  pub build_loop-Requested :
      (fuel : ℕ) (u : Jtag) (wr_words rd_words size : ℕ)
      → let total = (most wr_words rd_words + 4) * u.target_word_width in
        0 < u.target_word_width
        → IsValid u.write_buf
        → wr_words * u.target_word_width ≤ length (contents u.write_buf)
        → wr_words < 2 ^ 30
        → rd_words < 2 ^ 30
        → total < 2 ^ 30
        → 0 < size
        → total < fuel + size
        → 0 < fuel
        → (req : List ℕ) × (b : Cbuf) × (size' : ℕ) × (build_loop realloc fuel u wr_words rd_words
              size
            ≡ done (ok, req, size', record u { write_buf = b }))
          × Requested u wr_words rd_words req b
          × (total ≤ size')
  unfolding build_loop retry_or_end
  build_loop-Requested zero u wr_words rd_words size pos v there hw hr small some_size enough h =
      absurd (omega arith)
  build_loop-Requested (suc fuel) u wr_words rd_words size pos v there hw hr small some_size enough
        h =
      elim (Bool-cases (leb ((most wr_words rd_words + 4) * u.target_word_width) size)) [
        | inl fits ↦
            let roomy : (most wr_words rd_words + 4) * u.target_word_width ≤ size =
              ground (arith, fits) in
            let (req, b, builds, r) =
              build_jtag_req-Requested realloc gives u wr_words rd_words size pos v there hw hr
                small roomy in
            (req, b, size, rw builds refl, r, roomy)
        | inr short ↦
            let less : size < (most wr_words rd_words + 4) * u.target_word_width =
              ground (arith, short) in
            let (larger, _, _) = grow_buf-larger size some_size (omega arith) in
            let again = build_jtag_req-enomem u wr_words rd_words size hw hr small less in
            let (req, b, size', builds, r, roomy) =
              build_loop-Requested fuel u wr_words rd_words (grow_buf size) pos v there hw hr small
                (omega arith) (omega arith) (omega arith) in
            (req, b, size', rw again builds, r, roomy)
      ]

  -- A pass, from what its parts give.
  stepped_from :
      (scan : List ℕ → Option (List ℕ)) (u u1 u' : Jtag) (fuel min_wanted wanted size size' : ℕ)
      (payload wr_words rd_words acked received next : ℕ) (req resp : List ℕ)
      → calc_payload_len u wanted ≡ done (payload, wr_words, rd_words)
      → build_loop realloc fuel u wr_words rd_words size ≡ done (ok, req, size', u1)
      → scan req ≡ some resp
      → parse_jtag_resp u1 resp (length resp) ≡ done (acked, received, u')
      → length resp ≡ length req
      → adjust_wanted u1.target_word_width min_wanted wanted wr_words rd_words acked received
        ≡ done next
      → thread_step realloc scan fuel u min_wanted wanted size ≡ done (some (next, u'), size')
  unfolding thread_step take_answer
  stepped_from scan u u1 u' fuel min_wanted wanted size size' payload wr_words rd_words acked
        received next req resp a b c d e f =
      rw (a, b, c, sym e, d, f) refl

  -- With words of one to three bytes, buffers that are valid and of at most 64 KiB, at most 2^16
  -- words wanted, a block of some size and enough fuel for it to grow, and a target whose answer has
  -- the length of the request and takes at most the words written and sends at most those asked for,
  -- a pass of the thread ends well: exactly the acknowledged words leave the write buffer, exactly
  -- those that the answer carries go to the end of the read buffer, both buffers stay valid, and at
  -- most 15000 words are wanted next.
  pub thread_step-Exchanged :
      (scan : List ℕ → Option (List ℕ)) (u : Jtag) (fuel min_wanted wanted size acked received : ℕ)
      → let width = u.target_word_width in
        let wr = min (fill_level u.write_buf / width) wanted in
        let rd = min (free_level u.read_buf / width) wanted in
        0 < width
        → width < 4
        → IsValid u.write_buf
        → IsValid u.read_buf
        → u.write_buf.size ≤ 2 ^ 16
        → u.read_buf.size ≤ 2 ^ 16
        → min_wanted ≤ 2 ^ 16
        → wanted ≤ 2 ^ 16
        → 0 < size
        → 2 ^ 19 < fuel
        → ((req : List ℕ) (b : Cbuf)
            → Requested u wr rd req b
            → (resp : List ℕ) × (scan req ≡ some resp) × Answers width acked received req resp)
        → acked ≤ wr
        → received ≤ rd
        → (req : List ℕ) × (b : Cbuf) × (resp : List ℕ) × (next : ℕ) × (size' : ℕ) × (u' : Jtag)
          × Requested u wr rd req b
          × (scan req ≡ some resp)
          × (thread_step realloc scan fuel u min_wanted wanted size ≡ done (some (next, u'), size'))
          × Exchanged u u' (acked * width) (take (received * width) (drop (width * 2) resp))
          × (next ≤ 15000)
  thread_step-Exchanged scan u fuel min_wanted wanted size acked received pos narrow v w wsize rsize
        hm hw some_size enough answers few few' =
      let width = u.target_word_width in
      let level_is : fill_level u.write_buf ≡ length (contents u.write_buf) =
        fill_level_lem v ∙ sym (length-contents u.write_buf) in
      let level_small : fill_level u.write_buf ≤ 2 ^ 16 =
        omega (arith, fill_level_lem v, v.level_in) in
      let free_is : free_level u.read_buf + length (contents u.read_buf) ≡ u.read_buf.size =
        ap (λ k. free_level u.read_buf + k) (length-contents u.read_buf) ∙ free_level_lem w in
      let wr = min (fill_level u.write_buf / width) wanted in
      let rd = min (free_level u.read_buf / width) wanted in
      let wr_bytes : wr * width ≤ fill_level u.write_buf = whole_words _ width wanted in
      let rd_bytes : rd * width ≤ free_level u.read_buf = whole_words _ width wanted in
      let acked_bytes : acked * width ≤ wr * width = mul-le-mul_right width few in
      let received_bytes : received * width ≤ rd * width = mul-le-mul_right width few' in
      let sum : (most wr rd + 4) * width ≤ 2 ^ 19 =
        total_small (most wr rd) width (ground arith) narrow in
      let received_room = room_lem received (most wr rd) width (ground arith) in
      let payload = calc_payload_len_lem u wanted pos (omega arith) (omega arith) (omega arith) in
      let (req, b, size', builds, r, _) =
        build_loop-Requested fuel u wr rd size pos v (omega arith) (omega arith) (omega arith)
          (omega arith) some_size (omega arith) (omega arith) in
      let (resp, scans, a) = answers req b r in
      let (u', parses, e) =
        parse_jtag_resp-Exchanged (record u { write_buf = b }) resp acked received r.ring_valid w
          a.says_acked a.says_received (rw r.keeps (omega arith)) (omega arith)
          (omega (arith, r.size, a.as_long)) (omega arith) (omega arith) in
      let (next, adjusts, most_next, _, _) =
        adjust_wanted_narrow width min_wanted wanted wr rd acked received (omega arith)
          (omega arith) narrow in
      (
        req,
        b,
        resp,
        next,
        size',
        u',
        r,
        scans,
        stepped_from scan u (record u { write_buf = b }) u' fuel min_wanted wanted size size' _ wr
            rd acked received next req resp payload builds scans parses a.as_long adjusts,
        record {
          taken_away = e.taken_away ∙ ap (λ l. drop (acked * width) l) r.keeps;
          delivered = e.delivered;
          write_valid = e.write_valid;
          read_valid = e.read_valid;
          write_size = e.write_size ∙ r.ring_size;
          read_size = e.read_size;
          same_width = e.same_width;
        },
        most_next,
      )
