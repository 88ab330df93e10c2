-- ===== src/Jtag/Response.antt =====
-- What the thread takes from the answer of the target.
use demo_testbench.Base.{ℕ, ◌+◌, ◌-◌, ◌*◌, ◌%◌, ◌^◌, ◌≤◌, ◌<◌, ltb, List, ◌++◌, length, take, drop}
use demo_testbench.Base.{length-drop, length-take, done, Status, ◌≡◌, refl, ◌∙◌, arith, false}
use demo_testbench.Cbuf
use demo_testbench.Cbuf.{Cbuf}
use demo_testbench.Cbuf.Valid.{IsValid}
use demo_testbench.Cbuf.Contents.{contents}
use demo_testbench.Cbuf.Fifo.{get, put, discard_refines, write_refines}
use demo_testbench.Jtag.{Jtag, parse_jtag_resp, to_bytes}
use demo_testbench.Jtag.Words.{copy_from_word}

-- What an answer that takes `taken` bytes and brings `new` leaves.
pub record Exchanged (u u' : Jtag) (taken : ℕ) (new : List ℕ) : Type 0 where
  pub taken_away : contents u'.write_buf ≡ drop taken (contents u.write_buf)
  pub delivered : contents u'.read_buf ≡ contents u.read_buf ++ new
  pub write_valid : IsValid u'.write_buf
  pub read_valid : IsValid u'.read_buf
  pub write_size : u'.write_buf.size ≡ u.write_buf.size
  pub read_size : u'.read_buf.size ≡ u.read_buf.size
  pub same_width : u'.target_word_width ≡ u.target_word_width

-- The outcome of an answer, from what its parts give.
parsed_from :
    (u : Jtag) (resp : List ℕ) (acked received out n : ℕ) (s : Status) (b : Cbuf)
    → copy_from_word u.target_word_width resp (length resp - u.target_word_width * 2) ≡ done acked
    → copy_from_word u.target_word_width resp (length resp - u.target_word_width) ≡ done received
    → to_bytes u acked ≡ out
    → to_bytes u received ≡ n
    → Cbuf.write u.read_buf (drop (u.target_word_width * 2) resp) n ≡ done (s, b)
    → parse_jtag_resp u resp (length resp)
      ≡ done
          (acked, received, record u { write_buf = (Cbuf.discard u.write_buf out).1; read_buf = b })
unfolding parse_jtag_resp
parsed_from u resp acked received out n s b says says' out_is n_is writes =
    rw (says, says', out_is, n_is, writes) refl

-- If the last two words of an answer say that `acked` words are taken and `received` are sent, the
-- write buffer has as many words as are taken, the read buffer has room for those sent, and the
-- answer is long enough to hold them, the thread takes exactly the oldest `acked` words out of the
-- write buffer, puts the words behind the first two of the answer at the end of the read buffer, and
-- both buffers stay valid.
pub parse_jtag_resp-Exchanged :
    (u : Jtag) (resp : List ℕ) (acked received : ℕ)
    → let width = u.target_word_width in
      IsValid u.write_buf
      → IsValid u.read_buf
      → copy_from_word width resp (length resp - width * 2) ≡ done acked
      → copy_from_word width resp (length resp - width) ≡ done received
      → acked * width ≤ length (contents u.write_buf)
      → length (contents u.read_buf) + received * width ≤ u.read_buf.size
      → width * 2 + received * width ≤ length resp
      → acked * width < 2 ^ 32
      → received * width < 2 ^ 32
      → (u' : Jtag) × (parse_jtag_resp u resp (length resp) ≡ done (acked, received, u'))
        × Exchanged u u' (acked * width) (take (received * width) (drop (width * 2) resp))
unfolding to_bytes put get
parse_jtag_resp-Exchanged u resp acked received v w says says' there room inside small small' =
    let width = u.target_word_width in
    let out = acked * width in
    let src = drop (width * 2) resp in
    let n = received * width in
    let out_is : out % 2 ^ 32 ≡ out = omega arith in
    let n_is : n % 2 ^ 32 ≡ n = omega arith in
    let have : n ≤ length src = omega (arith, length-drop (width * 2) resp) in
    let len : length (take n src) ≡ n = omega (arith, length-take n src) in
    let fits : ltb u.read_buf.size (length (contents u.read_buf) + length (take n src)) ≡ false =
      rw len (ground arith) in
    let enough : ltb (length (contents u.write_buf)) out ≡ false = ground arith in
    let (s, rest, valid, size) = discard_refines out v in
    let (b, writes, new, valid', size') = write_refines src n w have in
    (
      record u { write_buf = (Cbuf.discard u.write_buf out).1; read_buf = b },
      parsed_from u resp acked received out n _ b says says' out_is n_is writes,
      record {
        taken_away = rest ∙ rw enough refl;
        delivered = new ∙ rw fits refl;
        write_valid = valid;
        read_valid = valid';
        write_size = size;
        read_size = size';
        same_width = refl;
      },
    )
