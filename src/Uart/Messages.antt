-- ===== src/Uart/Messages.antt =====
-- The messages of the protocol: credit, and the escaped words of the write side.
use demo_testbench.Base.{ℕ, ◌+◌, ◌*◌, ◌/◌, ◌%◌, ◌^◌, ◌<◌, bit_and, bit_or, add_size, [], ◌∷◌}
use demo_testbench.Base.{◌≡◌, refl, ap, ◌∙◌, arith}
use demo_testbench.Base.Bits.{bit_and_mask, bit_or_shifted, bit_or_one}
use demo_testbench.Uart.{Uart, marker, update_debt, credit_message}

-- The value in a credit message's two bytes.
pub debt_value :
    (u : Uart) (first second : ℕ)
    → second < 256
    → (update_debt u first second).debt ≡ add_size u.debt (first / 2 % 128 * 256 + second)
unfolding update_debt
debt_value u first second h =
    rw (bit_and_mask 7 (first / 2), bit_or_shifted 8 (first / 2 % 128) second h) refl

-- A credit message for a tranche below 2^15 starts with the marker and then an odd byte, which is
-- no marker, and `update_debt` of its two other bytes adds exactly the tranche.
pub update_debt-credit_message :
    (u : Uart) (tranche : ℕ)
    → tranche < 2 ^ 15
    → (first : ℕ) × (second : ℕ) × (credit_message tranche ≡ marker ∷ first ∷ second ∷ [])
      × (first % 2 ≡ 1)
      × (first < 256)
      × (second < 256)
      × ((update_debt u first second).debt ≡ add_size u.debt tranche)
unfolding credit_message
update_debt-credit_message u tranche h =
    let low : bit_and tranche 0xff ≡ tranche % 256 = bit_and_mask 8 tranche in
    let first = bit_or 0x1 (tranche / 2 ^ 8 * 2) % 2 ^ 8 in
    let second = bit_and tranche 0xff % 2 ^ 8 in
    let one : first ≡ 1 + tranche / 256 * 2 = omega (arith, bit_or_one (tranche / 2 ^ 8)) in
    let two : second ≡ tranche % 256 = omega (arith, low) in
    (
      first,
      second,
      refl,
      omega arith,
      omega arith,
      omega arith,
      debt_value u first second (omega arith) ∙ ap (add_size u.debt) (omega arith),
    )
