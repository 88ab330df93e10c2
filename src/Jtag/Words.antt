-- ===== src/Jtag/Words.antt =====
-- Words of the target in the bytes of a request, and `min` and `max` on `wsize_t`.
pub mod Laws
use demo_testbench.Base.{
  Bool, ℕ, ◌+◌, ◌-◌, ◌*◌, ◌/◌, ◌%◌, ◌^◌, ◌==◌, ltb, leb, if◌then◌else◌, List, [], ◌∷◌, ◌++◌, length,
  take, drop,
}
use demo_testbench.Base.{tabulate, Outcome, done, fault}
use demo_testbench.Cbuf.{memcpy}

-- `a > b` for two numbers of 32 bits, converted to `int`.
abbrev pub greater : ℕ → ℕ → Bool
greater a b = ltb ((b + 2 ^ 31) % 2 ^ 32) ((a + 2 ^ 31) % 2 ^ 32)

pub min_wsize : ℕ → ℕ → ℕ
min_wsize a b = let x = a % 2 ^ 32 in let y = b % 2 ^ 32 in if greater x y then y else x

pub max_wsize : ℕ → ℕ → ℕ
max_wsize a b = let x = a % 2 ^ 32 in let y = b % 2 ^ 32 in if greater x y then x else y

-- The bytes of a number in a word: little endian up to four bytes; in a wider word only its lowest
-- byte, four from the end.
pub word_bytes : ℕ → ℕ → List ℕ
word_bytes width value =
    if leb width 4
    then take width (
        (value % 256)
        ∷ (value / 2 ^ 8 % 256)
        ∷ (value / 2 ^ 16 % 256)
        ∷ (value / 2 ^ 24 % 256)
        ∷ [])
    else tabulate (width - 4) (λ i. 0) ++ ((value % 256) ∷ 0 ∷ 0 ∷ 0 ∷ [])

-- `copy_to_word` at `&dest[to]`; with a width of 0 it writes before `dest`.
unfoldable pub copy_to_word : ℕ → ℕ → List ℕ → ℕ → Outcome (List ℕ)
unfolding word_bytes
copy_to_word width value dest to =
    if width == 0 then fault else memcpy dest to (word_bytes width value) 0 width

-- A number from its bytes, the lowest first.
pub value_le : List ℕ → ℕ
value_le [] = 0
value_le (b ∷ bs) = b + 256 * value_le bs

-- `copy_from_word` at `&from[at]`.
unfoldable pub copy_from_word : ℕ → List ℕ → ℕ → Outcome ℕ
unfolding value_le
copy_from_word width from at =
    let cp = if ltb 4 width then 4 else width in
    if leb (at + width) (length from)
    then done (value_le (take cp (drop (at + (width - cp)) from)))
    else fault
