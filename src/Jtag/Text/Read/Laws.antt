-- ===== src/Jtag/Text/Read/Laws.antt =====
-- What one field of a text is read as.
use mathlib.Core.List.{append_assoc}
use demo_testbench.Base.{
  ℕ, suc, ◌+◌, ◌*◌, ◌/◌, ◌%◌, ◌^◌, ◌≤◌, ◌<◌, ◌==◌, ltb, leb, if◌then◌else◌, List, [], ◌∷◌, ◌++◌,
  length, take, drop,
}
use demo_testbench.Base.{true, false, done, ◌>>=◌, ◌≡◌, refl, sym, ap, ap₂, ◌∙◌, arith}
use demo_testbench.Base.{length-append, take_front, drop_front, drop-add}
use demo_testbench.Cbuf.Copy.{memcpy-concat}
use demo_testbench.Jtag.Text.{hex_digit, hex_byte}
use demo_testbench.Jtag.Text.Laws.{AreBytes, digits, hexstring_to_binarray_le-digits}
use demo_testbench.Jtag.Text.Read.{
  Fields, is_separator, sub_uint, half_int, field_bytes, end_field, scan_chars,
}

-- The state in which `filled` are the bytes of the response so far.
abbrev pub state : List ℕ → ℕ → ℕ → ℕ → List ℕ → List ℕ → Fields
state buf buf_pos s e filled left = record {
  buf = buf;
  buf_pos = buf_pos;
  field_start = s;
  field_end = e;
  resp = filled ++ left;
  resp_pos = length filled;
}

pub length-digits : (xs : List ℕ) → length (digits xs) ≡ 2 * length xs
unfolding digits hex_byte
length-digits [] = refl
length-digits (x ∷ xs) = omega (arith, length-digits xs, length-append (digits xs) (hex_byte x))

-- Characters that end no field.
ArePlain : List ℕ → Type 0
ArePlain [] = Unit
ArePlain (c ∷ cs) = (is_separator c ≡ false) × ((c == 26) ≡ false) × ArePlain cs

append-ArePlain : (xs ys : List ℕ) → ArePlain xs → ArePlain ys → ArePlain (xs ++ ys)
unfolding ArePlain
append-ArePlain [] ys p q = q
append-ArePlain (x ∷ xs) ys p q = (p.0, p.1, append-ArePlain xs ys p.2 q)

hex_digit-plain :
    (n : ℕ) → n < 16 → (is_separator (hex_digit n) ≡ false) × ((hex_digit n == 26) ≡ false)
unfolding hex_digit
hex_digit-plain n h = ground arith

digits-ArePlain : (xs : List ℕ) → AreBytes xs → ArePlain (digits xs)
unfolding digits hex_byte ArePlain AreBytes
digits-ArePlain [] b = tt
digits-ArePlain (x ∷ xs) b =
    let (s, e) = hex_digit-plain (x / 16) (omega (arith, b.0)) in
    let (s', e') = hex_digit-plain (x % 16) (omega arith) in
    append-ArePlain (digits xs) (hex_byte x) (digits-ArePlain xs b.1) (s, e, (s', e', tt))

pub not_full : (size : ℕ) → size ≡ 2048 → leb size 0 ≡ false
not_full size h = ground arith

pub regrouped :
    (filled field more left : List ℕ)
    → (filled ++ field) ++ (more ++ drop (length more) (drop (length field) left))
      ≡ filled ++ ((field ++ more) ++ drop (length (field ++ more)) left)
regrouped filled field more left =
    let rest = drop (length more) (drop (length field) left) in
    let same : rest ≡ drop (length (field ++ more)) left =
      sym (drop-add (length field) (length more) left)
      ∙ ap (λ j. drop j left) (sym (length-append field more)) in
    append_assoc filled field (more ++ rest)
    ∙ ap (λ l. filled ++ l)
        (sym (append_assoc field more rest) ∙ ap (λ l. (field ++ more) ++ l) same)

module _ (strtol : List ℕ → ℕ)
    (reads_hex : (a b : ℕ)
      → a < 16
      → b < 16
      → strtol (hex_digit a ∷ hex_digit b ∷ []) ≡ 16 * a + b) where
  scan_next :
      (size n at : ℕ) (f : Fields) (c : ℕ) (rest : List ℕ)
      → drop at f.buf ≡ c ∷ rest
      → scan_chars strtol size (suc n) at f ≡ (
          (if is_separator c then end_field strtol size at f else done f) >>= λ f'.
          if c == 26 then done (true, f') else scan_chars strtol size n (at + 1) f')
  unfolding scan_chars
  scan_next size n at f c rest here = rw (scan_chars, here) refl

  scan_plain :
      (size n at : ℕ) (f : Fields) (xs rest : List ℕ)
      → ArePlain xs
      → drop at f.buf ≡ xs ++ rest
      → scan_chars strtol size (length xs + n) at f ≡ scan_chars strtol size n (at + length xs) f
  unfolding ArePlain
  scan_plain size n at f [] rest p here =
      let none_yet : 0 + n ≡ n = omega arith in
      let here_still : at + 0 ≡ at = omega arith in rw (none_yet, here_still) refl
  scan_plain size n at f (x ∷ xs) rest p here =
      let count : suc (length xs) + n ≡ suc (length xs + n) = omega arith in
      let after : drop (at + 1) f.buf ≡ xs ++ rest =
        drop-add at 1 f.buf ∙ ap (λ l. drop 1 l) here in
      let there : (at + 1) + length xs ≡ at + suc (length xs) = omega arith in
      rw (count, scan_next size (length xs + n) at f x (xs ++ rest) here, p.0, p.1)
        (scan_plain size n (at + 1) f xs rest p.2 after
          ∙ ap (λ k. scan_chars strtol size n k f) there)

  end_field_lem :
      (size s e buf_pos : ℕ) (buf field filled left tail : List ℕ)
      → AreBytes field
      → drop s buf ≡ digits field ++ tail
      → s + 2 * length field < 2 ^ 31
      → s + 2 * length field ≤ length buf
      → length filled + length field ≤ size
      → size < 2 ^ 31
      → length field ≤ length left
      → let k = length field in
        end_field strtol size (s + 2 * k) (state buf buf_pos s e filled left)
        ≡ done (state buf buf_pos ((s + 2 * k) + 1) (s + 2 * k) (filled ++ field) (drop k left))
  unfolding end_field field_bytes
  end_field_lem size s e buf_pos buf field filled left tail bytes here small inside fits wide room =
      let k = length field in
      let chars : sub_uint (s + 2 * k) s ≡ 2 * k = omega arith in
      let half : half_int (2 * k) ≡ k = ground arith in
      let sum : (length filled + k) % 2 ^ 32 ≡ length filled + k = omega arith in
      let next : ((s + 2 * k) + 1) % 2 ^ 32 ≡ (s + 2 * k) + 1 = omega arith in
      let within : leb (length filled + k) size ≡ true = ground arith in
      let positive : ltb (2 * k) (2 ^ 31) ≡ true = ground arith in
      let in_buf : leb (s + 2 * k) (length buf) ≡ true = ground arith in
      let text : take (2 * k) (drop s buf) ≡ digits field =
        ap (λ l. take (2 * k) l) here
        ∙ take_front (digits field) tail (2 * k) (length-digits field) in
      let reads = hexstring_to_binarray_le-digits strtol reads_hex field bytes in
      let copies =
        memcpy-concat (filled ++ left) (length filled) field k refl
          (omega (arith, length-append filled left)) in
      let front : take (length filled) (filled ++ left) ≡ filled =
        take_front filled left (length filled) refl in
      let back : drop (length filled + k) (filled ++ left) ≡ drop k left =
        drop-add (length filled) k (filled ++ left)
        ∙ ap (λ l. drop k l) (drop_front filled left (length filled) refl) in
      let out : take (length filled) (filled ++ left)
            ++ (field ++ drop (length filled + k) (filled ++ left))
          ≡ (filled ++ field) ++ drop k left =
        ap₂ (λ a b. a ++ (field ++ b)) front back ∙ sym (append_assoc filled field (drop k left)) in
      let pos : length filled + k ≡ length (filled ++ field) = sym (length-append filled field) in
      rw (chars, half, sum, within, positive, in_buf, text, reads, copies, next)
        (λ i. done (record {
          buf = buf;
          buf_pos = buf_pos;
          field_start = (s + 2 * k) + 1;
          field_end = s + 2 * k;
          resp = out i;
          resp_pos = pos i;
        }))

  -- A field and the character that ends it.
  pub scan_field :
      (size s e buf_pos c n : ℕ) (buf field filled left tail : List ℕ)
      → is_separator c ≡ true
      → AreBytes field
      → drop s buf ≡ digits field ++ (c ∷ tail)
      → s + 2 * length field < 2 ^ 31
      → s + 2 * length field ≤ length buf
      → length filled + length field ≤ size
      → size < 2 ^ 31
      → length field ≤ length left
      → let k = length field in
        let f' = state buf buf_pos ((s + 2 * k) + 1) (s + 2 * k) (filled ++ field) (drop k left) in
        scan_chars strtol size (length (digits field) + suc n) s (state buf buf_pos s e filled left)
        ≡ (if c == 26 then done (true, f') else scan_chars strtol size n ((s + 2 * k) + 1) f')
  scan_field size s e buf_pos c n buf field filled left tail ends bytes here small inside fits wide
        room =
      let k = length field in
      let f = state buf buf_pos s e filled left in
      let at : s + length (digits field) ≡ s + 2 * k = omega (arith, length-digits field) in
      let there : drop (s + 2 * k) buf ≡ c ∷ tail =
        drop-add s (2 * k) buf
        ∙ (ap (λ l. drop (2 * k) l) here
            ∙ drop_front (digits field) (c ∷ tail) (2 * k) (length-digits field)) in
      scan_plain size (suc n) s f (digits field) (c ∷ tail) (digits-ArePlain field bytes) here
      ∙ (ap (λ j. scan_chars strtol size (suc n) j f) at
          ∙ (scan_next size n (s + 2 * k) f c tail there
              ∙ rw
                  (
                    ends,
                    end_field_lem size s e buf_pos buf field filled left (c ∷ tail) bytes here small
                        inside fits wide room,
                  )
                  refl))
