-- ===== src/Jtag/Text.antt =====
-- The text protocol with OpenOCD: the command that `jtag_drscan_write` sends for a request, and the
-- fields that `jtag_drscan_read` makes of the text that comes back. A character is its code.
pub mod Rounds
pub mod Laws
pub mod Send
pub mod Read
pub mod Tests
use demo_testbench.Base.{
  ℕ, ◌+◌, ◌-◌, ◌*◌, ◌/◌, ◌%◌, ◌^◌, ◌==◌, ltb, leb, if◌then◌else◌, List, [], ◌∷◌, ◌++◌, length,
}
use demo_testbench.Uart.{min_int}
use demo_testbench.Base.{
  zero, suc, take, drop, add_size, hang, Outcome, done, fault, abort, ◌>>=◌, ◌>>◌, Status, ok,
  is_ok,
}

-- The buffer of a command: its size, and the text that it has so far.
pub record Cmdbuf : Type 0 where
  pub buf_size : ℕ
  pub text : List ℕ

pub cmdbuf_append : Cmdbuf → List ℕ → Outcome Cmdbuf
cmdbuf_append b data' =
    if leb (length b.text + length data') b.buf_size
    then done (record b { text = b.text ++ data' })
    else abort

-- "drscan or1k.fifo "
abbrev pub oocd_cmdstart : List ℕ
oocd_cmdstart =
    100 ∷ 114 ∷ 115 ∷ 99 ∷ 97 ∷ 110 ∷ 32 ∷ 111 ∷ 114 ∷ 49 ∷ 107 ∷ 46 ∷ 102 ∷ 105 ∷ 102 ∷ 111 ∷ 32
    ∷ []

abbrev pub oocd_cmdend : List ℕ
oocd_cmdend = 26 ∷ []

abbrev pub oocd_cmd_maxlen : ℕ
oocd_cmd_maxlen = 1048576

abbrev pub oocd_max_linesize : ℕ
oocd_max_linesize = 4194304

-- A digit as "%02x" writes it.
unfoldable pub hex_digit : ℕ → ℕ
hex_digit n = if ltb n 10 then 48 + n else 87 + n

-- "%02x" of a byte
unfoldable pub hex_byte : ℕ → List ℕ
hex_byte b = hex_digit (b / 16) ∷ hex_digit (b % 16) ∷ []

-- "%u", with the number of digits that are left
pub uint_digits : ℕ → ℕ → List ℕ → List ℕ
uint_digits zero n acc = acc
uint_digits (suc k) n acc =
    let acc' = (48 + n % 10) ∷ acc in
    let rest = uint_digits k (n / 10) acc' in if n / 10 == 0 then acc' else rest

-- "%u 0x" of an `unsigned int`
pub field_start : ℕ → List ℕ
unfolding uint_digits
field_start n = uint_digits 10 n [] ++ (32 ∷ 48 ∷ 120 ∷ [])

-- The bytes of a field, from the last to the first.
pub append_bytes : Cmdbuf → List ℕ → Outcome Cmdbuf
append_bytes b [] = done b
append_bytes b (x ∷ xs) = append_bytes b xs >>= λ b'. cmdbuf_append b' (hex_byte x)

-- A field, whose size is an `int`, here as a `size_t`.
pub append_field : Cmdbuf → ℕ → List ℕ → Outcome Cmdbuf
append_field b field_size field = do
  b1 ← cmdbuf_append b (field_start (field_size * 8 % 2 ^ 32))
  b2 ← append_bytes b1 field
  cmdbuf_append b2 (32 ∷ [])

-- The loop over the fields of a request, from `size_sent` on, with the rounds that it may take. `min` is
-- one of `int`; no bytes stand in a field of negative size.
pub append_fields : ℕ → Cmdbuf → List ℕ → ℕ → Outcome Cmdbuf
append_fields zero b req size_sent = if ltb size_sent (length req) then hang else done b
append_fields (suc fuel) b req size_sent =
    let field_size = min_int (length req - size_sent) 4 in
    let field = if leb (2 ^ 63) field_size then [] else take field_size (drop size_sent req) in
    let next = append_field b field_size field >>= λ b'.
    append_fields fuel b' req (add_size size_sent field_size) in
    if ltb size_sent (length req) then next else done b

-- Each round appends some characters, so that a buffer of 1 MiB is full long before.
abbrev pub field_rounds : ℕ
field_rounds = 2 ^ 30

-- How `jtag_drscan_write` ends: without a text where the command is too long for OpenOCD, and
-- otherwise with the text that it hands to `write_b`, whose result it does not look at.
pub data Sent : Type 0 where
  eoverflow : Sent
  sent : List ℕ → Sent

-- The whole command in the buffer.
pub build_command : Cmdbuf → List ℕ → Outcome Cmdbuf
build_command b req = do
  b1 ← cmdbuf_append b oocd_cmdstart
  b2 ← append_fields field_rounds b1 req 0
  cmdbuf_append b2 oocd_cmdend

-- The memory for the command is taken to be given.
pub jtag_drscan_write : List ℕ → Outcome Sent
jtag_drscan_write req = do
  b ← build_command (record { buf_size = oocd_cmd_maxlen; text = [] }) req
  done (if ltb oocd_max_linesize (length b.text) then eoverflow else sent b.text)

-- `strtol` is the C library's for base 16; of its result only the lowest byte counts.
module _ (strtol : List ℕ → ℕ) where
  pub hexstring_to_byte : ℕ → ℕ → ℕ
  hexstring_to_byte a b = strtol (a ∷ b ∷ []) % 256

  -- The last two characters give the first byte of `out`; a string of odd length is an assertion
  -- that fails.
  pub hexstring_to_binarray_le : List ℕ → List ℕ → Outcome (List ℕ)
  hexstring_to_binarray_le [] out = done out
  hexstring_to_binarray_le (a ∷ []) out = abort
  hexstring_to_binarray_le (a ∷ b ∷ rest) out =
      hexstring_to_binarray_le rest (hexstring_to_byte a b ∷ out)
