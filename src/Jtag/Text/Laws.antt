-- ===== src/Jtag/Text/Laws.antt =====
-- What the command for a request says, when it fits, and that a field of hexadecimal digits is read
-- as the bytes that it was written for.
use mathlib.Core.List.{append_assoc, append-nil}
use demo_testbench.Base.{}
use demo_testbench.Base.{
  ℕ, ◌+◌, ◌*◌, ◌/◌, ◌%◌, ◌^◌, ◌≤◌, ◌<◌, ltb, leb, if◌then◌else◌, List, [], ◌∷◌, ◌++◌, length,
  length-append,
}
use demo_testbench.Base.{
  Outcome, done, abort, ◌>>=◌, ◌≡◌, refl, sym, ap, ◌∙◌, arith, Bool-cases, inl, inr, true, false,
}
use demo_testbench.Jtag.Text.Rounds.{append_chunks, append_fields-chunks}
use demo_testbench.Jtag.Text.{
  Cmdbuf, cmdbuf_append, oocd_cmdstart, oocd_cmdend, hex_digit, hex_byte, field_start, append_bytes,
  append_field, append_fields, uint_digits, field_rounds,
}
use demo_testbench.Jtag.Text.{
  sent, build_command, jtag_drscan_write, hexstring_to_byte, hexstring_to_binarray_le,
  oocd_cmd_maxlen,
}

-- A field's digits, the last byte's first.
unfoldable pub digits : List ℕ → List ℕ
digits [] = []
digits (x ∷ xs) = digits xs ++ hex_byte x

-- The text of one field, and of a request.
pub field_text : List ℕ → List ℕ
field_text field = field_start (length field * 8 % 2 ^ 32) ++ (digits field ++ (32 ∷ []))

pub fields_text : List ℕ → List ℕ
fields_text [] = []
fields_text (w ∷ []) = field_text (w ∷ [])
fields_text (w ∷ x ∷ []) = field_text (w ∷ x ∷ [])
fields_text (w ∷ x ∷ y ∷ []) = field_text (w ∷ x ∷ y ∷ [])
fields_text (w ∷ x ∷ y ∷ z ∷ rest) = field_text (w ∷ x ∷ y ∷ z ∷ []) ++ fields_text rest

-- A step that appends a text to a buffer, whatever the pieces: it is there if it has room, and the
-- assertion fails if it has not.
abbrev AppendsAs : (Cmdbuf → Outcome Cmdbuf) → List ℕ → Type 0
AppendsAs f text = (b : Cmdbuf) → length b.text ≤ b.buf_size → f b ≡ cmdbuf_append b text

nothing-AppendsAs : AppendsAs (λ b. done b) []
unfolding cmdbuf_append
nothing-AppendsAs b fits =
    let still : leb (length b.text + 0) b.buf_size ≡ true = ground arith in
    rw (still, append-nil b.text) refl

then-AppendsAs :
    (f g : Cmdbuf → Outcome Cmdbuf) (xs ys : List ℕ)
    → AppendsAs f xs
    → AppendsAs g ys
    → AppendsAs (λ b. f b >>= g) (xs ++ ys)
unfolding cmdbuf_append
then-AppendsAs f g xs ys hf hg b fits =
    rw (hf b fits) (elim (Bool-cases (leb (length b.text + length xs) b.buf_size)) [
      | inl room ↦
          let long = length-append b.text xs in
          let sum : length (b.text ++ xs) + length ys ≡ length b.text + length (xs ++ ys) =
            omega (arith, long, length-append xs ys) in
          let next = hg (record b { text = b.text ++ xs }) (ground (arith, long, room)) in
          rw (room, next, sum, append_assoc b.text xs ys) refl
      | inr over ↦
          let over' : leb (length b.text + length (xs ++ ys)) b.buf_size ≡ false =
            ground (arith, over, length-append xs ys) in
          rw (over, over') refl
    ])

append_bytes-AppendsAs : (xs : List ℕ) → AppendsAs (λ b. append_bytes b xs) (digits xs)
unfolding append_bytes digits
append_bytes-AppendsAs [] = nothing-AppendsAs
append_bytes-AppendsAs (x ∷ xs) =
    then-AppendsAs (λ b. append_bytes b xs) (λ b. cmdbuf_append b (hex_byte x)) (digits xs)
      (hex_byte x) (append_bytes-AppendsAs xs) (λ b fits. refl)

append_field-AppendsAs :
    (field : List ℕ) → AppendsAs (λ b. append_field b (length field) field) (field_text field)
unfolding append_field field_text
append_field-AppendsAs field =
    then-AppendsAs (λ b. cmdbuf_append b (field_start (length field * 8 % 2 ^ 32)))
      (λ b. append_bytes b field >>= λ b'. cmdbuf_append b' (32 ∷ []))
      (field_start (length field * 8 % 2 ^ 32)) (digits field ++ (32 ∷ [])) (λ b fits. refl)
      (then-AppendsAs (λ b. append_bytes b field) (λ b. cmdbuf_append b (32 ∷ [])) (digits field)
        (32 ∷ []) (append_bytes-AppendsAs field) (λ b fits. refl))

append_chunks-AppendsAs : (req : List ℕ) → AppendsAs (λ b. append_chunks b req) (fields_text req)
unfolding append_chunks fields_text
append_chunks-AppendsAs [] = nothing-AppendsAs
append_chunks-AppendsAs (w ∷ []) = append_field-AppendsAs (w ∷ [])
append_chunks-AppendsAs (w ∷ x ∷ []) = append_field-AppendsAs (w ∷ x ∷ [])
append_chunks-AppendsAs (w ∷ x ∷ y ∷ []) = append_field-AppendsAs (w ∷ x ∷ y ∷ [])
append_chunks-AppendsAs (w ∷ x ∷ y ∷ z ∷ rest) =
    then-AppendsAs (λ b. append_field b 4 (w ∷ x ∷ y ∷ z ∷ [])) (λ b. append_chunks b rest)
      (field_text (w ∷ x ∷ y ∷ z ∷ [])) (fields_text rest)
      (append_field-AppendsAs (w ∷ x ∷ y ∷ z ∷ [])) (append_chunks-AppendsAs rest)

-- The text of the command for a request.
pub command_text : List ℕ → List ℕ
command_text req = oocd_cmdstart ++ (fields_text req ++ oocd_cmdend)

request-AppendsAs :
    (req : List ℕ)
    → length req < 2 ^ 31
    → AppendsAs (λ b. append_fields field_rounds b req 0) (fields_text req)
request-AppendsAs req small b fits =
    append_fields-chunks field_rounds b req 0 req refl small (omega arith)
    ∙ append_chunks-AppendsAs req b fits

build_command-AppendsAs :
    (req : List ℕ) → length req < 2 ^ 31 → AppendsAs (λ b. build_command b req) (command_text req)
unfolding build_command command_text
build_command-AppendsAs req small =
    then-AppendsAs (λ b. cmdbuf_append b oocd_cmdstart)
      (λ b. append_fields field_rounds b req 0 >>= λ b'. cmdbuf_append b' oocd_cmdend) oocd_cmdstart
      (fields_text req ++ oocd_cmdend) (λ b fits. refl)
      (then-AppendsAs (λ b. append_fields field_rounds b req 0) (λ b. cmdbuf_append b oocd_cmdend)
        (fields_text req) oocd_cmdend (request-AppendsAs req small) (λ b fits. refl))

-- Fields of four bytes make a text of at most seven characters for two bytes.
length-fields_text : (req : List ℕ) → 2 * length (fields_text req) ≤ 7 * length req + 21
unfolding fields_text field_text digits field_start uint_digits hex_byte
length-fields_text [] = omega arith
length-fields_text (w ∷ []) = omega arith
length-fields_text (w ∷ x ∷ []) = omega arith
length-fields_text (w ∷ x ∷ y ∷ []) = omega arith
length-fields_text (w ∷ x ∷ y ∷ z ∷ rest) = omega (
  arith,
  length-fields_text rest,
  length-append (field_text (w ∷ x ∷ y ∷ z ∷ [])) (fields_text rest),
)

length-command_text : (req : List ℕ) → length (command_text req) ≡ 18 + length (fields_text req)
unfolding command_text
length-command_text req = omega (
  arith,
  length-append oocd_cmdstart (fields_text req ++ oocd_cmdend),
  length-append (fields_text req) oocd_cmdend,
)

-- For a request below 2^31 bytes: where the command has room in the buffer of 1 MiB, what is sent
-- is the start of the command, the request in fields of four bytes, and the end; where it has
-- not, the assertion of the buffer fails, so that the code never reports that a command is too
-- long. A command has at most seven characters for two bytes, and 29 more.
pub jtag_drscan_write_lem :
    (req : List ℕ)
    → length req < 2 ^ 31
    → let text = command_text req in
      (jtag_drscan_write req ≡ (if leb (length text) (2 ^ 20) then done (sent text) else abort))
      × (2 * length text ≤ 7 * length req + 57)
unfolding jtag_drscan_write cmdbuf_append
jtag_drscan_write_lem req small =
    let text = command_text req in
    let start : Cmdbuf = record { buf_size = oocd_cmd_maxlen; text = [] } in
    let builds = build_command-AppendsAs req small start (omega arith) in
    let bound : 2 * length text ≤ 7 * length req + 57 =
      omega (arith, length-fields_text req, length-command_text req) in
    elim (Bool-cases (leb (0 + length text) 1048576)) [
      | inl room ↦
          let short : ltb 4194304 (length text) ≡ false = ground (arith, room) in
          let room' : leb (length text) (2 ^ 20) ≡ true = ground (arith, room) in
          (rw (builds, room, short, room') refl, bound)
      | inr over ↦
          let over' : leb (length text) (2 ^ 20) ≡ false = ground (arith, over) in
          (rw (builds, over, over') refl, bound)
    ]

-- Bytes.
unfoldable pub AreBytes : List ℕ → Type 0
AreBytes [] = Unit
AreBytes (x ∷ xs) = (x < 256) × AreBytes xs

module _ (strtol : List ℕ → ℕ)
    (reads_hex : (a b : ℕ)
      → a < 16
      → b < 16
      → strtol (hex_digit a ∷ hex_digit b ∷ []) ≡ 16 * a + b) where
  read_digits :
      (xs rest out : List ℕ)
      → AreBytes xs
      → hexstring_to_binarray_le strtol (digits xs ++ rest) out
        ≡ hexstring_to_binarray_le strtol rest (xs ++ out)
  unfolding AreBytes digits hexstring_to_binarray_le hex_byte hexstring_to_byte
  read_digits [] rest out bytes = refl
  read_digits (x ∷ xs) rest out bytes =
      let value : strtol (hex_digit (x / 16) ∷ hex_digit (x % 16) ∷ []) % 256 ≡ x =
        omega
          (arith, reads_hex (x / 16) (x % 16) (omega (arith, bytes.0)) (omega arith), bytes.0) in
      rw
        (
          append_assoc (digits xs) (hex_byte x) rest,
          read_digits xs (hex_byte x ++ rest) out bytes.1,
          value,
        )
        refl

  -- The digits that a field of bytes is written in are read as those bytes, in order.
  pub hexstring_to_binarray_le-digits :
      (field : List ℕ)
      → AreBytes field
      → hexstring_to_binarray_le strtol (digits field) [] ≡ done field
  unfolding hexstring_to_binarray_le
  hexstring_to_binarray_le-digits field bytes =
      rw (sym (append-nil (digits field)))
        (read_digits field [] [] bytes ∙ ap (λ l. done l) (append-nil field))
