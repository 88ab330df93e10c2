-- ===== src/Glip/Tests.antt =====
-- The front end with decimal options and two backends of no state.
use demo_testbench.Base.{
  ap, get_or, ◌≢◌, ℕ, ◌+◌, ◌*◌, ◌-◌, ◌^◌, true, false, List, [], ◌∷◌, ◌++◌, length, Option, none,
  some,
}
use demo_testbench.Base.{
  Outcome, done, Status, ok, failed, enomem, eunknown_backend, ◌≡◌, refl, arith,
}
use demo_testbench.Glip.{Entry, Backend, Registered, log_err, glip_new}
use demo_testbench.Glip.Options.{
  Number, option_number, glip_option_get_uint32, glip_option_get_uint16,
}
use demo_testbench.Glip.Options.{glip_option_get_uint8, glip_option_get_char}
use demo_testbench.Glip.Options.Laws.{narrowed, glip_option_get_lem}
use demo_testbench.Glip.New.{new_ctx, glip_new_lem}

-- A text of digits as a number in base 10.
decimal : List ℕ → ℕ → ℕ
decimal [] n = n
decimal (c ∷ cs) n = decimal cs (n * 10 + (c - 48))

strtoul_decimal : List ℕ → Number
strtoul_decimal text = record {
  val = decimal text 0;
  erange = false;
  other_error = false;
  used = length text;
}

abbrev speed_text : List ℕ
speed_text = b's' ∷ b'p' ∷ b'e' ∷ b'e' ∷ b'd' ∷ []

abbrev device_text : List ℕ
device_text = b'd' ∷ b'e' ∷ b'v' ∷ []

abbrev speed_entry : Entry
speed_entry = record { name = speed_text; value = b'9' ∷ b'9' ∷ b'9' ∷ b'9' ∷ b'9' ∷ [] }

abbrev device_entry : Entry
device_entry = record { name = device_text; value = b'/' ∷ b'd' ∷ [] }

-- Texts with different first characters differ.
other_head : (a b : ℕ) {xs ys : List ℕ} → a ∷ xs ≡ b ∷ ys → a ≢ b → ⊥
other_head a b e ne = ne (ap (λ l. get_or l 0 0) e)

glip_option_get_example :
    let options = device_entry ∷ speed_entry ∷ [] in
    let number = option_number (strtoul_decimal speed_entry.value) in
    (glip_option_get_uint32 strtoul_decimal options speed_text 7 ≡ narrowed (2 ^ 32 - 1) number 7)
    × (glip_option_get_uint16 strtoul_decimal options speed_text 7 ≡ narrowed 0xffff number 7)
    × (glip_option_get_uint8 strtoul_decimal options speed_text 7 ≡ narrowed 0xff number 7)
    × (glip_option_get_uint32 strtoul_decimal (device_entry ∷ []) [] 7 ≡ (failed, 7))
    × (glip_option_get_uint16 strtoul_decimal (device_entry ∷ []) [] 7 ≡ (failed, 7))
    × (glip_option_get_uint8 strtoul_decimal (device_entry ∷ []) [] 7 ≡ (failed, 7))
    × (glip_option_get_char options speed_text [] ≡ (ok, speed_entry.value))
    × (glip_option_get_char (device_entry ∷ []) [] [] ≡ (failed, []))
glip_option_get_example =
    glip_option_get_lem strtoul_decimal (device_entry ∷ []) speed_entry [] [] [] 7
      ((λ e. other_head 100 115 e (omega arith)), tt) ((λ e. cc), tt)

abbrev uart_text : List ℕ
uart_text = b'u' ∷ b'a' ∷ b'r' ∷ b't' ∷ []

abbrev tcp_text : List ℕ
tcp_text = b't' ∷ b'c' ∷ b'p' ∷ []

-- A constructor that fails before it sets any function.
abbrev failing : List Entry → Outcome (Status × Option (Backend ℕ) × ℕ)
failing options = done (failed, none, 0)

glip_new_example :
    let before : List (Registered ℕ) = record { name = uart_text; new = none } ∷ [] in
    let enabled = before ++ (record { name = tcp_text; new = some failing } ∷ []) in
    let disabled = before ++ (record { name = tcp_text; new = none } ∷ []) in
    (glip_new enabled true none (λ t. (0, true)) tcp_text []
      ≡ done (ok, some (new_ctx log_err [] none 0)))
    × (glip_new disabled true none (λ t. (0, true)) tcp_text [] ≡ done (eunknown_backend, none))
    × (glip_new before true none (λ t. (0, true)) [] [] ≡ done (eunknown_backend, none))
    × (glip_new enabled false none (λ t. (0, true)) tcp_text [] ≡ done (enomem, none))
glip_new_example =
    glip_new_lem (record { name = uart_text; new = none } ∷ []) [] tcp_text [] failing failed none 0
      (λ t. (0, true)) [] ((λ e. other_head 117 116 e (omega arith)), tt) ((λ e. cc), tt) refl
