-- ===== src/Jtag/Text/Read/Reply.antt =====
-- What the fields of a text that arrives at once are read as.
use mathlib.Core.List.{append_assoc}
use demo_testbench.Base.{ℕ, suc, ◌+◌, ◌*◌, ◌^◌, ◌≤◌, ◌<◌, leb, List, [], ◌∷◌, ◌++◌, length, drop}
use demo_testbench.Base.{true, false, tabulate, done, ok, ◌≡◌, refl, ap, ◌∙◌, arith}
use demo_testbench.Base.{length-append, length-drop, drop_front, drop-add, length-tabulate}
use demo_testbench.Cbuf.{memcpy}
use demo_testbench.Cbuf.Copy.{memcpy-concat}
use demo_testbench.Jtag.Text.{hex_digit}
use demo_testbench.Jtag.Text.Laws.{AreBytes, digits}
use demo_testbench.Jtag.Text.Read.{
  Fields, Chunk, got, scan_chars, grown, read_loop, jtag_drscan_read,
}
use demo_testbench.Jtag.Text.Read.Laws.{state, scan_field, length-digits, not_full, regrouped}

-- The text of a reply: each field's digits and a space, and behind the last one the end.
unfoldable pub reply : List ℕ → List (List ℕ) → List ℕ
reply field [] = digits field ++ (26 ∷ [])
reply field (next ∷ more) = digits field ++ (32 ∷ reply next more)

-- The bytes of the fields.
unfoldable pub bytes_of : List ℕ → List (List ℕ) → List ℕ
bytes_of field [] = field
bytes_of field (next ∷ more) = field ++ bytes_of next more

unfoldable pub EachAreBytes : List ℕ → List (List ℕ) → Type 0
EachAreBytes field [] = AreBytes field
EachAreBytes field (next ∷ more) = AreBytes field × EachAreBytes next more

module _ (strtol : List ℕ → ℕ)
    (reads_hex : (a b : ℕ)
      → a < 16
      → b < 16
      → strtol (hex_digit a ∷ hex_digit b ∷ []) ≡ 16 * a + b) where
  scan_reply :
      (size s e buf_pos : ℕ) (buf field : List ℕ) (more : List (List ℕ)) (filled left tail : List ℕ)
      → EachAreBytes field more
      → drop s buf ≡ reply field more ++ tail
      → s + length (reply field more) < 2 ^ 31
      → s + length (reply field more) ≤ length buf
      → length filled + length (bytes_of field more) ≤ size
      → size < 2 ^ 31
      → length (bytes_of field more) ≤ length left
      → (f' : Fields) × (scan_chars strtol size
            (length (reply field more))
            s
            (state buf buf_pos s e filled left)
          ≡ done (true, f'))
        × (f'.resp ≡ filled ++ (bytes_of field more ++ drop (length (bytes_of field more)) left))
  unfolding reply bytes_of EachAreBytes
  scan_reply size s e buf_pos buf field [] filled left tail bytes here small inside fits wide room =
      let k = length field in
      let long = length-append (digits field) (26 ∷ []) in
      let chars : length (digits field ++ (26 ∷ [])) ≡ length (digits field) + suc 0 =
        omega (arith, long) in
      (
        state buf buf_pos ((s + 2 * k) + 1) (s + 2 * k) (filled ++ field) (drop k left),
        ap (λ j. scan_chars strtol size j s (state buf buf_pos s e filled left)) chars
            ∙ scan_field strtol reads_hex size s e buf_pos 26 0 buf field filled left tail refl
                bytes (here ∙ append_assoc (digits field) (26 ∷ []) tail)
                (omega (arith, long, length-digits field))
                (omega (arith, long, length-digits field)) fits wide room,
        append_assoc filled field (drop k left),
      )
  scan_reply size s e buf_pos buf field (next ∷ more) filled left tail bytes here small inside fits
        wide room =
      let k = length field in
      let rest = reply next more in
      let long = length-append (digits field) (32 ∷ rest) in
      let both = length-append field (bytes_of next more) in
      let chars : length (digits field ++ (32 ∷ rest)) ≡ length (digits field) + suc (length rest) =
        omega (arith, long) in
      let begins = here ∙ append_assoc (digits field) (32 ∷ rest) tail in
      let one =
        scan_field strtol reads_hex size s e buf_pos 32 (length rest) buf field filled left
          (rest ++ tail) refl bytes.0 begins (omega (arith, long, length-digits field))
          (omega (arith, long, length-digits field)) (omega (arith, both)) wide
          (omega (arith, both)) in
      let goes_on : drop ((s + 2 * k) + 1) buf ≡ rest ++ tail =
        drop-add (s + 2 * k) 1 buf
        ∙ ap (λ l. drop 1 l)
            (drop-add s (2 * k) buf
              ∙ (ap (λ l. drop (2 * k) l) begins
                  ∙ drop_front (digits field) (32 ∷ (rest ++ tail)) (2 * k)
                      (length-digits field))) in
      let (f', scans, holds) =
        scan_reply size ((s + 2 * k) + 1) (s + 2 * k) buf_pos buf next more (filled ++ field)
          (drop k left) tail bytes.1 goes_on (omega (arith, long, length-digits field))
          (omega (arith, long, length-digits field))
          (omega (arith, both, length-append filled field)) wide
          (omega (arith, both, length-drop k left)) in
      (
        f',
        ap (λ j. scan_chars strtol size j s (state buf buf_pos s e filled left)) chars
            ∙ (one ∙ scans),
        holds ∙ regrouped filled field (bytes_of next more) left,
      )

  -- A chunk that ends the text.
  read_once :
      (size : ℕ) (f f' : Fields) (cs buf' : List ℕ) (chunks : List Chunk)
      → leb (length f.buf) f.buf_pos ≡ false
      → memcpy f.buf f.buf_pos cs 0 (length cs) ≡ done buf'
      → scan_chars strtol size (length cs) f.buf_pos (record f { buf = buf' }) ≡ done (true, f')
      → read_loop strtol size (got cs ∷ chunks) f ≡ done (ok, f'.resp)
  unfolding read_loop grown
  read_once size f f' cs buf' chunks roomy copies scans = rw (roomy, copies, scans) refl

  -- Where strtol reads two hexadecimal digits: if the text of a reply, its fields separated by spaces
  -- and the last one ended by the end of the line, comes in one piece of at most 2048 characters, and
  -- its fields have at most as many bytes as the response has room for, then the response is those
  -- bytes, field by field, and the reading ends.
  pub jtag_drscan_read_lem :
      (field : List ℕ) (more : List (List ℕ)) (chunks : List Chunk) (resp : List ℕ)
      → EachAreBytes field more
      → length (reply field more) ≤ 2048
      → length (bytes_of field more) ≤ length resp
      → length resp < 2 ^ 31
      → jtag_drscan_read strtol (length resp) (got (reply field more) ∷ chunks) resp
        ≡ done (ok, bytes_of field more ++ drop (length (bytes_of field more)) resp)
  unfolding jtag_drscan_read
  jtag_drscan_read_lem field more chunks resp bytes short room small =
      let text = reply field more in
      let blank : List ℕ = tabulate 2048 (λ i. 0) in
      let blank_len : length blank ≡ 2048 = length-tabulate {A = ℕ} 2048 (λ i. 0) in
      let copies = memcpy-concat blank 0 text (length text) refl (omega arith) in
      let buf = text ++ drop (0 + length text) blank in
      let (f', scans, holds) =
        scan_reply (length resp) 0 0 0 buf field more [] resp (drop (0 + length text) blank) bytes
          refl (omega arith)
          (omega (arith, length-append text (drop (0 + length text) blank), blank_len))
          (omega arith) small room in
      read_once (length resp) (state blank 0 0 0 [] resp) f' text buf chunks (not_full _ blank_len)
        copies scans
      ∙ ap (λ r. done (ok, r)) holds
