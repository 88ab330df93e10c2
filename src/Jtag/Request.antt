-- ===== src/Jtag/Request.antt =====
-- What the thread asks of the target, and what it makes of the answer.
use demo_testbench.Base.{ℕ, zero, suc, ◌+◌, ◌*◌, ◌%◌, ◌^◌, ◌≤◌, ◌<◌, ltb, if◌then◌else◌}
use demo_testbench.Base.{
  List, [], ◌++◌, length, take, drop, tabulate, length-tabulate, length-take, length-append,
  length-drop,
}
use demo_testbench.Base.{take_front, drop_front, take_less, Option, some, Outcome, done, Status, ok}
use demo_testbench.Base.{◌≡◌, refl, ap, ◌∙◌, sym, arith, false}
use demo_testbench.Cbuf.{Cbuf, fill_level}
use demo_testbench.Cbuf.Valid.{IsValid, fill_level_lem}
use demo_testbench.Cbuf.Contents.{contents, length-contents}
use demo_testbench.Cbuf.Copy.{memcpy-concat}
use demo_testbench.Cbuf.Api.Peek.{peek-IsPeeked, peek-zero, peeked-IsValid}
use demo_testbench.Jtag.{Jtag, to_bytes, copy_payload, load_peeked, build_jtag_req}
use demo_testbench.Jtag.Words.{copy_to_word, copy_from_word, max_wsize}
use demo_testbench.Jtag.Words.Laws.{
  max_wsize_lem, kept, copy_from_word-copy_to_word, copy_from_word_ext,
}

-- A payload and the four words beside it have room in what is made for the longer payload.
pub room_lem :
    (words most width : ℕ) → words ≤ most → words * width + width * 4 ≤ (most + 4) * width
room_lem words most zero h = omega arith
room_lem words most (suc w) h = grind (arith, room_lem words most w h)

-- What the request says and carries.
pub record Requested (u : Jtag) (wr_words rd_words : ℕ) (req : List ℕ) (b : Cbuf) : Type 0 where
  pub size :
      length req
      ≡ ((if ltb rd_words wr_words then wr_words else rd_words) + 4) * u.target_word_width
  pub says_written :
      copy_from_word u.target_word_width req 0 ≡ done (kept u.target_word_width wr_words)
  pub says_read :
      copy_from_word u.target_word_width req u.target_word_width
      ≡ done (kept u.target_word_width rd_words)
  pub carries :
      take (wr_words * u.target_word_width) (drop (u.target_word_width * 2) req)
      ≡ take (wr_words * u.target_word_width) (contents u.write_buf)
  pub keeps : contents b ≡ contents u.write_buf
  pub ring_valid : IsValid b
  pub ring_size : b.size ≡ u.write_buf.size

-- The words of the head, behind which the payload is copied.
head_kept :
    (width value value' : ℕ) (zeros : List ℕ)
    → 0 < width
    → width * 2 ≤ length zeros
    → (head : List ℕ) × (head' : List ℕ) × (copy_to_word width value zeros 0 ≡ done head)
      × (copy_to_word width value' head width ≡ done head')
      × (length head' ≡ length zeros)
      × (copy_from_word width head' 0 ≡ done (kept width value))
      × (copy_from_word width head' width ≡ done (kept width value'))
head_kept width value value' zeros pos room =
    let (head, runs, holds, before, after, len) =
      copy_from_word-copy_to_word width value zeros 0 pos (omega arith) in
    let (head', runs', holds', before', after', len') =
      copy_from_word-copy_to_word width value' head width pos (omega arith) in
    let zero_width : 0 + width ≡ width = omega arith in
    (
      head,
      head',
      runs,
      runs',
      len' ∙ len,
      copy_from_word_ext width 0 head' head (omega arith) (omega arith) (rw zero_width before')
          ∙ holds,
      holds',
    )

-- `realloc` gives the memory asked for.
module _ (realloc : Option (List ℕ) → ℕ → Option (List ℕ))
    (gives : (tmp : Option (List ℕ)) (n : ℕ)
      → (block : List ℕ) × (realloc tmp n ≡ some block) × (length block ≡ n)) where
  -- The oldest bytes of the write buffer stand behind the head, and none is taken.
  copy_payload_lem :
      (u : Jtag) (req : List ℕ) (n : ℕ)
      → IsValid u.write_buf
      → n ≤ length (contents u.write_buf)
      → n < 2 ^ 30
      → u.target_word_width * 2 + n ≤ length req
      → let at = u.target_word_width * 2 in
        (b : Cbuf) × (copy_payload realloc u req n
          ≡ done (
            ok,
            take at req ++ (take n (contents u.write_buf) ++ drop (at + n) req),
            record u { write_buf = b },
          ))
        × IsValid b
        × (contents b ≡ contents u.write_buf)
        × (b.size ≡ u.write_buf.size)
  unfolding copy_payload load_peeked
  copy_payload_lem u req zero v le small room =
      let copied = memcpy-concat req (u.target_word_width * 2) [] 0 refl room in
      (u.write_buf, rw (peek-zero realloc u.write_buf, copied) refl, v, refl, refl)
  copy_payload_lem u req (suc n) v le small room =
      let level : suc n ≤ fill_level u.write_buf =
        omega (arith, fill_level_lem v, length-contents u.write_buf) in
      let (ptr, b, peeks, p) = peek-IsPeeked realloc gives (suc n) v (omega arith) small level in
      let xs = take (suc n) (contents u.write_buf) in
      let len : length xs ≡ suc n = omega (arith, length-take (suc n) (contents u.write_buf)) in
      let copied = memcpy-concat req (u.target_word_width * 2) xs (suc n) len room in
      let (valid, same, size) = peeked-IsValid v p in
      (b, rw (peeks, p.bytes, copied) refl, valid, same, size)

  -- The request built, from what its parts give.
  built_from :
      (u : Jtag) (wr_words rd_words req_size most total n : ℕ) (head head' : List ℕ)
      (out : Outcome (Status × List ℕ × Jtag))
      → max_wsize wr_words rd_words ≡ most
      → to_bytes u ((most + 4) % 2 ^ 32) ≡ total
      → to_bytes u wr_words ≡ n
      → ltb req_size total ≡ false
      → copy_to_word u.target_word_width wr_words (tabulate total (λ i. 0)) 0 ≡ done head
      → copy_to_word u.target_word_width rd_words head u.target_word_width ≡ done head'
      → copy_payload realloc u head' n ≡ out
      → build_jtag_req realloc u wr_words rd_words req_size ≡ out
  unfolding build_jtag_req
  built_from u wr_words rd_words req_size most total n head head' out a b c d e f g =
      rw (a, b, d, e, f, c) g

  -- With words of a width above 0, a valid write buffer that has the words to be written, and a
  -- request of at most the size that there is room for and below 2^30 bytes, the request is built:
  -- it has room for the longer of the two payloads and four words more, its head says how many words
  -- are written and how many are asked for, as far as a word of that width keeps them, behind the
  -- head stand the oldest bytes of the write buffer, and the write buffer loses none.
  pub build_jtag_req-Requested :
      (u : Jtag) (wr_words rd_words req_size : ℕ)
      → 0 < u.target_word_width
      → IsValid u.write_buf
      → wr_words * u.target_word_width ≤ length (contents u.write_buf)
      → wr_words < 2 ^ 30
      → rd_words < 2 ^ 30
      → ((if ltb rd_words wr_words then wr_words else rd_words) + 4) * u.target_word_width < 2 ^ 30
      → ((if ltb rd_words wr_words then wr_words else rd_words) + 4) * u.target_word_width
        ≤ req_size
      → (req : List ℕ) × (b : Cbuf) × (build_jtag_req realloc u wr_words rd_words req_size
          ≡ done (ok, req, record u { write_buf = b }))
        × Requested u wr_words rd_words req b
  unfolding to_bytes
  build_jtag_req-Requested u wr_words rd_words req_size pos v there wr_small rd_small small fits =
      let width = u.target_word_width in
      let most : ℕ = if ltb rd_words wr_words then wr_words else rd_words in
      let total : ℕ = (most + 4) * width in
      let most_is = max_wsize_lem wr_words rd_words (omega arith) (omega arith) in
      let most_small : most < 2 ^ 30 = ground arith in
      let wr_le : wr_words ≤ most = ground arith in
      let wr_total : wr_words * width + width * 4 ≤ total = room_lem wr_words most width wr_le in
      let sum : (most + 4) % 2 ^ 32 ≡ most + 4 = omega arith in
      let bytes : total % 2 ^ 32 ≡ total = omega arith in
      let wr_bytes : wr_words * width % 2 ^ 32 ≡ wr_words * width = omega arith in
      let enough : ltb req_size total ≡ false = ground arith in
      let zeros : List ℕ = tabulate total (λ i. 0) in
      let zeros_len : length zeros ≡ total = length-tabulate {A = ℕ} total (λ i. 0) in
      let (head, head', runs, runs', len, says, says') =
        head_kept width wr_words rd_words zeros pos (omega arith) in
      let (b, copies, valid, keeps, same_size) =
        copy_payload_lem u head' (wr_words * width) v there (omega arith) (omega arith) in
      let n = wr_words * width in
      let payload = take n (contents u.write_buf) in
      let req = take (width * 2) head' ++ (payload ++ drop (width * 2 + n) head') in
      let front : length (take (width * 2) head') ≡ width * 2 =
        omega (arith, length-take (width * 2) head', room_lem wr_words most width wr_le) in
      let n_len : length payload ≡ n = omega (arith, length-take n (contents u.write_buf)) in
      let rest = drop (width * 2 + n) head' in
      let req_len : length req ≡ total = omega (
        arith,
        length-append (take (width * 2) head') (payload ++ rest),
        length-append payload rest,
        length-drop (width * 2 + n) head',
        wr_total,
      ) in
      let same_head : take (width * 2) req ≡ take (width * 2) head' =
        take_front (take (width * 2) head') (payload ++ rest) (width * 2) front in
      let agree : (k : ℕ) → k ≤ width * 2 → take k req ≡ take k head' = λ k h.
        sym (take_less k (width * 2) req h)
        ∙ (ap (λ l. take k l) same_head ∙ take_less k (width * 2) head' h) in
      (
        req,
        b,
        built_from u wr_words rd_words req_size most total n head head'
            (done (ok, req, record u { write_buf = b })) most_is (rw (sum, bytes) refl) wr_bytes
            enough runs runs' copies,
        record {
          size = req_len;
          says_written =
              copy_from_word_ext width 0 req head' (omega arith) (omega arith)
                (agree (0 + width) (omega arith))
              ∙ says;
          says_read =
              copy_from_word_ext width width req head' (omega arith) (omega arith)
                (agree (width + width) (omega arith))
              ∙ says';
          carries =
              ap (λ l. take n l)
                (drop_front (take (width * 2) head') (payload ++ rest) (width * 2) front)
              ∙ take_front payload rest n n_len;
          keeps = keeps;
          ring_valid = valid;
          ring_size = same_size;
        },
      )
