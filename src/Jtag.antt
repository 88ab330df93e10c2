-- ===== src/Jtag.antt =====
-- The JTAG backend, glip/src/backend_jtag/sw/backend_jtag.c: its state, and the requests and
-- responses that the communication thread exchanges with the target.
pub mod Words
pub mod Request
pub mod Response
pub mod Thread
pub mod Client
pub mod Text
mod Tests
use demo_testbench.Base.{
  ℕ, ◌+◌, ◌-◌, ◌*◌, ◌/◌, ◌%◌, ◌^◌, ◌==◌, ltb, leb, if◌then◌else◌, ◌&&◌, ◌||◌, List, [], ◌∷◌, length,
  take,
}
use demo_testbench.Base.{
  drop, tabulate, add_size, sub_size, Option, none, some, Outcome, done, fault, hang, ◌>>=◌, ◌>>◌,
}
use demo_testbench.Base.{Status, ok, failed, enomem, is_ok}
use demo_testbench.Cbuf
use demo_testbench.Cbuf.{Cbuf, memcpy, fill_level, free_level}
use demo_testbench.Cbuf.Api.{Ptr, peek, load}
use demo_testbench.Jtag.Words.{copy_to_word, copy_from_word, min_wsize, max_wsize}

-- The fields of `struct glip_backend_ctx` that the thread uses.
pub record Jtag : Type 0 where
  pub write_buf : Cbuf
  pub read_buf : Cbuf
  pub target_word_width : ℕ
  pub target_buffer_size : ℕ

abbrev pub max_payload_words : ℕ
max_payload_words = 15000

-- A division by a word width of 0 is undefined.
pub to_words : Jtag → ℕ → Outcome ℕ
to_words u bytes =
    if u.target_word_width == 0 then fault else done (bytes / u.target_word_width % 2 ^ 32)

pub to_bytes : Jtag → ℕ → ℕ
to_bytes u words = words * u.target_word_width % 2 ^ 32

-- The payload length, and the words to write and to read.
pub calc_payload_len : Jtag → ℕ → Outcome (ℕ × ℕ × ℕ)
unfolding to_words
calc_payload_len u wanted_words = do
  avail_wr ← to_words u (fill_level u.write_buf)
  avail_rd ← to_words u (free_level u.read_buf)
  let payload_len = min_wsize wanted_words (max_wsize avail_wr avail_rd)
  done (payload_len, min_wsize avail_wr payload_len, min_wsize avail_rd payload_len)

pub grow_buf : ℕ → ℕ
grow_buf current_size =
    if ltb current_size (32 * 1024)
    then current_size * 2 % 2 ^ 64
    else add_size current_size (32 * 1024)

-- What is read through the pointer that `cbuf_peek` has set; it sets none for 0 bytes.
pub load_peeked : Cbuf → Option Ptr → ℕ → Outcome (List ℕ)
load_peeked b none n = if n == 0 then done [] else fault
load_peeked b (some ptr) n = load b ptr n

-- `realloc` is the C library's, for `cbuf_peek`.
module _ (realloc : Option (List ℕ) → ℕ → Option (List ℕ)) where
  -- The payload of a request, copied behind its head.
  pub copy_payload : Jtag → List ℕ → ℕ → Outcome (Status × List ℕ × Jtag)
  unfolding load_peeked
  copy_payload u req wr_bytes = do
    (s, ptr, b) ← peek realloc u.write_buf wr_bytes
    let u' = record u { write_buf = b }
    if is_ok s
        then (load_peeked b ptr wr_bytes >>= λ xs.
            memcpy req (u.target_word_width * 2) xs 0 wr_bytes >>= λ req'. done (ok, req', u'))
        else done (failed, req, u')

  -- `build_jtag_req`, with the bytes of the request that are to be transferred.
  pub build_jtag_req : Jtag → ℕ → ℕ → ℕ → Outcome (Status × List ℕ × Jtag)
  unfolding to_bytes
  build_jtag_req u wr_words rd_words req_size =
      let width = u.target_word_width in
      let transfer_len = to_bytes u ((max_wsize wr_words rd_words + 4) % 2 ^ 32) in
      if ltb req_size transfer_len then done (enomem, [], u) else do
        head ← copy_to_word width wr_words (tabulate transfer_len (λ i. 0)) 0
        head' ← copy_to_word width rd_words head width
        copy_payload u head' (to_bytes u wr_words)

-- `parse_jtag_resp`: the words that the target has taken and those that it has sent.
pub parse_jtag_resp : Jtag → List ℕ → ℕ → Outcome (ℕ × ℕ × Jtag)
unfolding to_bytes
parse_jtag_resp u resp resp_size = do
  let width = u.target_word_width
  acked ← copy_from_word width resp (resp_size - width * 2)
  received ← copy_from_word width resp (resp_size - width)
  (s, b) ← Cbuf.write u.read_buf (drop (width * 2) resp) (to_bytes u received)
  done (
    acked,
    received,
    record u { write_buf = (Cbuf.discard u.write_buf (to_bytes u acked)).1; read_buf = b },
  )

-- How the thread adjusts the payload length after a transfer. The arithmetic on `double` is that of
-- the fractions for numbers of 32 bits. A shift of 1 by 32 or more is undefined.
pub adjust_wanted : ℕ → ℕ → ℕ → ℕ → ℕ → ℕ → ℕ → Outcome ℕ
adjust_wanted width min_wanted wanted wr_words rd_words acked received =
    let factor =
      if ltb (9 * wr_words) (10 * acked) || leb (9 * rd_words) (10 * received)
      then wanted * 3 / 2 % 2 ^ 32
      else if leb (2 * acked) wr_words && leb (2 * received) rd_words
      then wanted * 3 / 10
      else wanted in
    if leb 32 (width * 8)
    then fault
    else let small = min_wsize factor (2 ^ (width * 8) - 2) in
      done (min_wsize (max_wsize min_wanted small) max_payload_words)
