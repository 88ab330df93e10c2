-- ===== src/Jtag/Text/Read/Tests.antt =====
-- Replies to a request of five bytes, in one chunk and in several.
use demo_testbench.Base.{ℕ, List, [], ◌∷◌, ◌++◌, length, drop, done, ok, fault, ◌≡◌, refl, arith}
use demo_testbench.Jtag.Text.Laws.{AreBytes, digits}
use demo_testbench.Jtag.Text.{hex_byte, hexstring_to_binarray_le, hexstring_to_byte}
use demo_testbench.Cbuf.{memcpy}
use demo_testbench.Jtag.Text.Tests.{strtol16, strtol16-hex_digit}
use demo_testbench.Jtag.Text.Read.{
  got, jtag_drscan_read, read_loop, scan_chars, end_field, field_bytes, remove_fields, grown,
}
use demo_testbench.Jtag.Text.Read.Reply.{reply, bytes_of, EachAreBytes, jtag_drscan_read_lem}

abbrev first_field : List ℕ
first_field = 0x00 ∷ 0x2a ∷ 0xff ∷ 0x10 ∷ []

abbrev second_field : List ℕ
second_field = 0x07 ∷ []

abbrev room_for_five : List ℕ
room_for_five = 9 ∷ 9 ∷ 9 ∷ 9 ∷ 9 ∷ []

fields-EachAreBytes : EachAreBytes first_field (second_field ∷ [])
unfolding EachAreBytes AreBytes
fields-EachAreBytes =
    ((omega arith, (omega arith, (omega arith, (omega arith, tt)))), (omega arith, tt))

jtag_drscan_read_example :
    jtag_drscan_read strtol16 5 (got (reply first_field (second_field ∷ [])) ∷ []) room_for_five
    ≡ done (
      ok,
      bytes_of first_field (second_field ∷ [])
          ++ drop (length (bytes_of first_field (second_field ∷ []))) room_for_five,
    )
unfolding reply bytes_of digits hex_byte
jtag_drscan_read_example =
    jtag_drscan_read_lem strtol16 strtol16-hex_digit first_field (second_field ∷ []) []
      room_for_five fields-EachAreBytes (omega arith) (omega arith) (omega arith)

-- A field that comes in two chunks, behind a complete one: the second chunk has no separator, and the
-- end of the last field is taken for that of a new one.
split_field :
    jtag_drscan_read strtol16 2
      (got (48 ∷ 55 ∷ 32 ∷ []) ∷ got (49 ∷ []) ∷ got (48 ∷ 26 ∷ []) ∷ [])
      (9 ∷ 9 ∷ [])
    ≡ fault
unfolding jtag_drscan_read read_loop scan_chars end_field field_bytes remove_fields grown
    hexstring_to_binarray_le hexstring_to_byte strtol16 memcpy
split_field = refl
