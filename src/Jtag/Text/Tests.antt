-- ===== src/Jtag/Text/Tests.antt =====
-- The text protocol on a request of five bytes.
use demo_testbench.Base.{
  ℕ, ◌+◌, ◌*◌, ◌^◌, ◌-◌, ◌≤◌, ◌<◌, ltb, leb, if◌then◌else◌, List, [], ◌∷◌, length,
}
use demo_testbench.Base.{done, abort, ◌≡◌, arith}
use demo_testbench.Jtag.Text.{hex_digit, sent, jtag_drscan_write}
use demo_testbench.Jtag.Text.Laws.{command_text, jtag_drscan_write_lem}

abbrev request : List ℕ
request = 0x00 ∷ 0x2a ∷ 0xff ∷ 0x10 ∷ 0x07 ∷ []

jtag_drscan_write_lem_example :
    (jtag_drscan_write request ≡ (
      if leb (length (command_text request)) (2 ^ 20)
      then done (sent (command_text request))
      else abort))
    × (2 * length (command_text request) ≤ 7 * length request + 57)
jtag_drscan_write_lem_example = jtag_drscan_write_lem request (omega arith)

-- The value of a lower case digit, and of two of them.
abbrev hex_value : ℕ → ℕ
hex_value c = if ltb c 58 then c - 48 else c - 87

unfoldable pub strtol16 : List ℕ → ℕ
strtol16 (a ∷ b ∷ []) = 16 * hex_value a + hex_value b
strtol16 _ = 0

pub strtol16-hex_digit :
    (a b : ℕ) → a < 16 → b < 16 → strtol16 (hex_digit a ∷ hex_digit b ∷ []) ≡ 16 * a + b
unfolding strtol16 hex_digit
strtol16-hex_digit a b ha hb = ground arith
