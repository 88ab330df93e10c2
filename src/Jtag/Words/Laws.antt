-- ===== src/Jtag/Words/Laws.antt =====
-- What a word of a request holds, and the minimum and maximum of numbers that fit in an `int`.
use demo_testbench.Cbuf.Copy.{memcpy-concat}
use demo_testbench.Base.{
  sym, take-drop, drop-add, drop_left, le→leb, take_front, length-drop, ◌∙◌, ap, length-take,
  length-append, length-tabulate, tabulate, drop_front, true, false, ◌==◌, Bool-cases, inl, inr, ℕ,
  zero, suc, ◌+◌, ◌-◌, ◌/◌, ◌%◌, ◌^◌, ◌≤◌, ◌<◌, min, ltb, leb, if◌then◌else◌, List, [], ◌∷◌, ◌++◌,
}
use demo_testbench.Base.{length, take, drop, ◌≡◌, refl, arith, done}
use demo_testbench.Jtag.Words.{
  min_wsize, max_wsize, word_bytes, copy_to_word, copy_from_word, value_le,
}

pub min_wsize_lem : (a b : ℕ) → a < 2 ^ 31 → b < 2 ^ 31 → min_wsize a b ≡ min a b
unfolding min_wsize
min_wsize_lem a b ha hb =
    let ea : a % 2 ^ 32 ≡ a = omega arith in
    let eb : b % 2 ^ 32 ≡ b = omega arith in
    let ga : (a + 2 ^ 31) % 2 ^ 32 ≡ a + 2 ^ 31 = omega arith in
    let gb : (b + 2 ^ 31) % 2 ^ 32 ≡ b + 2 ^ 31 = omega arith in rw (ea, eb, ga, gb) (ground arith)

pub max_wsize_lem : (a b : ℕ) → a < 2 ^ 31 → b < 2 ^ 31 → max_wsize a b ≡ (if ltb b a then a else b)
unfolding max_wsize
max_wsize_lem a b ha hb =
    let ea : a % 2 ^ 32 ≡ a = omega arith in
    let eb : b % 2 ^ 32 ≡ b = omega arith in
    let ga : (a + 2 ^ 31) % 2 ^ 32 ≡ a + 2 ^ 31 = omega arith in
    let gb : (b + 2 ^ 31) % 2 ^ 32 ≡ b + 2 ^ 31 = omega arith in rw (ea, eb, ga, gb) (ground arith)

pub length-word_bytes : (width value : ℕ) → length (word_bytes width value) ≡ width
unfolding word_bytes
length-word_bytes width value = elim (Bool-cases (leb width 4)) [
  | inl narrow ↦
      let four =
        (value % 256)
        ∷ (value / 2 ^ 8 % 256)
        ∷ (value / 2 ^ 16 % 256)
        ∷ (value / 2 ^ 24 % 256)
        ∷ [] in
      let few : width ≤ 4 = ground (arith, narrow) in
      rw narrow (omega (arith, length-take width four))
  | inr wide ↦
      let zeros : List ℕ = tabulate (width - 4) (λ i. 0) in
      let many : 4 < width = ground (arith, wide) in
      rw wide (
        omega (
          arith,
          length-append zeros ((value % 256) ∷ 0 ∷ 0 ∷ 0 ∷ []),
          length-tabulate {A = ℕ} (width - 4) (λ i. 0),
        ))
]

-- What a word keeps of a number: its bytes, up to four; in a wider word only the lowest byte.
abbrev pub kept : ℕ → ℕ → ℕ
kept width value = if ltb 4 width then value % 256 else value % 256 ^ width

word_kept :
    (width value : ℕ)
    → 0 < width
    → value_le (drop (width - (if ltb 4 width then 4 else width)) (word_bytes width value))
      ≡ kept width value
unfolding word_bytes value_le
word_kept zero value h = absurd (omega arith)
word_kept (suc zero) value h = omega arith
word_kept (suc (suc zero)) value h = omega arith
word_kept (suc (suc (suc zero))) value h = omega arith
word_kept (suc (suc (suc (suc zero)))) value h = omega arith
word_kept (suc (suc (suc (suc (suc n))))) value h =
    let w = suc (suc (suc (suc (suc n)))) in
    let zeros : List ℕ = tabulate (w - 4) (λ i. 0) in
    let tail = (value % 256) ∷ 0 ∷ 0 ∷ 0 ∷ [] in
    let wide : ltb 4 w ≡ true = ground arith in
    let not_narrow : leb w 4 ≡ false = ground arith in
    rw (wide, not_narrow, drop_front zeros tail (w - 4) (length-tabulate {A = ℕ} (w - 4) (λ i. 0)))
      (omega arith)

cp-le : (width : ℕ) → (if ltb 4 width then 4 else width) ≤ width
cp-le width = ground arith

-- What the thread reads where a word stands.
pub copy_from_word_lem :
    (width : ℕ) (word rest from : List ℕ) (at : ℕ)
    → length word ≡ width
    → drop at from ≡ word ++ rest
    → at + width ≤ length from
    → copy_from_word width from at
      ≡ done (value_le (drop (width - (if ltb 4 width then 4 else width)) word))
unfolding copy_from_word
copy_from_word_lem width word rest from at len here inside =
    let cp : ℕ = if ltb 4 width then 4 else width in
    let few : cp ≤ width = cp-le width in
    let fits : leb (at + width) (length from) ≡ true = le→leb (at + width) (length from) inside in
    let low = drop (width - cp) word in
    let len_low : length low ≡ cp = omega (arith, length-drop (width - cp) word) in
    let found : drop (at + (width - cp)) from ≡ low ++ rest =
      drop-add at (width - cp) from
      ∙ (ap (λ l. drop (width - cp) l) here ∙ drop_left (width - cp) word rest (omega arith)) in
    rw fits (
      ap (λ l. done (value_le (take cp l))) found
      ∙ ap (λ l. done (value_le l)) (take_front low rest cp len_low))

-- A number copied into a word of a request, and read back as the thread reads a word, is the number
-- modulo 256 to the width, for widths of up to four bytes; with a wider word only its lowest byte
-- comes back. The rest of the request is as it was.
pub copy_from_word-copy_to_word :
    (width value : ℕ) (dest : List ℕ) (to : ℕ)
    → 0 < width
    → to + width ≤ length dest
    → (out : List ℕ) × (copy_to_word width value dest to ≡ done out)
      × (copy_from_word width out to ≡ done (kept width value))
      × (take to out ≡ take to dest)
      × (drop (to + width) out ≡ drop (to + width) dest)
      × (length out ≡ length dest)
unfolding copy_to_word
copy_from_word-copy_to_word width value dest to pos room =
    let word = word_bytes width value in
    let front : length (take to dest) ≡ to = omega (arith, length-take to dest) in
    let out = take to dest ++ (word ++ drop (to + width) dest) in
    let rest : drop to out ≡ word ++ drop (to + width) dest =
      drop_front (take to dest) (word ++ drop (to + width) dest) to front in
    let size : length out ≡ length dest = omega (
      arith,
      length-append (take to dest) (word ++ drop (to + width) dest),
      length-append word (drop (to + width) dest),
      length-word_bytes width value,
      length-drop (to + width) dest,
      front,
    ) in
    let nonzero : (width == 0) ≡ false = ground arith in
    let copied = memcpy-concat dest to word width (length-word_bytes width value) room in
    (
      out,
      rw (nonzero, copied) refl,
      copy_from_word_lem width word (drop (to + width) dest) out to (length-word_bytes width value)
            rest (omega arith)
          ∙ ap (λ k. done k) (word_kept width value pos),
      take_front (take to dest) (word ++ drop (to + width) dest) to front,
      drop-add to width out
          ∙ (ap (λ l. drop width l) rest
              ∙ drop_front word (drop (to + width) dest) width (length-word_bytes width value)),
      size,
    )

-- The thread reads the same word from two requests that agree up to its end.
pub copy_from_word_ext :
    (width at : ℕ) (xs ys : List ℕ)
    → at + width ≤ length xs
    → at + width ≤ length ys
    → take (at + width) xs ≡ take (at + width) ys
    → copy_from_word width xs at ≡ copy_from_word width ys at
unfolding copy_from_word
copy_from_word_ext width at xs ys in_xs in_ys same =
    let cp : ℕ = if ltb 4 width then 4 else width in
    let few : cp ≤ width = cp-le width in
    let last : (at + (width - cp)) + cp ≡ at + width = omega arith in
    let piece = λ (l : List ℕ).
      take-drop cp (at + (width - cp)) l ∙ ap (λ k. drop (at + (width - cp)) (take k l)) last in
    let low : take cp (drop (at + (width - cp)) xs) ≡ take cp (drop (at + (width - cp)) ys) =
      piece xs ∙ (ap (λ l. drop (at + (width - cp)) l) same ∙ sym (piece ys)) in
    rw (le→leb (at + width) (length xs) in_xs, le→leb (at + width) (length ys) in_ys)
      (ap (λ l. done (value_le l)) low)
