-- ===== src/Glip/Options/Laws.antt =====
-- The first option of a name decides, and numbers are cut to 32 bits and then to the width asked
-- for.
use demo_testbench.Base.{ℕ, ◌-◌, ◌%◌, ◌^◌, false, List, [], ◌∷◌, ◌++◌}
use demo_testbench.Base.{
  min, Option, none, some, Status, ok, failed, texts_eq, texts_eq_iff, ◌≡◌, ◌≢◌, refl, ap, arith,
}
use demo_testbench.Base.{Bool-cases, inl, inr, Option-cases}
use demo_testbench.Glip.{Entry}
use demo_testbench.Glip.Options.{
  entry_out, number_out, text_out, Number, find_option, option_number, narrow,
  glip_option_get_uint32,
}
use demo_testbench.Glip.Options.{
  glip_option_get_uint16, glip_option_get_uint8, glip_option_get_char,
}

-- No entry has the name.
abbrev pub HasNo : List ℕ → List Entry → Type 0
HasNo name [] = Unit
HasNo name (e ∷ es) = (e.name ≢ name) × HasNo name es

other_name : (xs ys : List ℕ) → xs ≢ ys → texts_eq xs ys ≡ false
other_name xs ys ne = elim (Bool-cases (texts_eq xs ys)) [
  | inl same ↦ absurd (ne ((texts_eq_iff xs ys).0 same))
  | inr differ ↦ differ
]

pub find_option-first :
    (before : List Entry) (e : Entry) (after : List Entry)
    → HasNo e.name before
    → find_option (before ++ (e ∷ after)) e.name ≡ some e
unfolding find_option
find_option-first [] e after h = rw ((texts_eq_iff e.name e.name).1 refl) refl
find_option-first (b ∷ before) e after (ne, h) =
    rw (other_name b.name e.name ne) (find_option-first before e after h)

pub find_option-none :
    (es : List Entry) (name : List ℕ) → HasNo name es → find_option es name ≡ none
unfolding find_option
find_option-none [] name h = refl
find_option-none (e ∷ es) name (ne, h) = rw (other_name e.name name ne) (find_option-none es name h)

-- What a number that was read becomes in `bound` and less.
abbrev pub narrowed : ℕ → Option ℕ → ℕ → Status × ℕ
narrowed bound none out = (failed, out)
narrowed bound (some val) out = (ok, min (val % 2 ^ 32) bound)

narrow_number :
    (strtoul : List ℕ → Number) (options : List Entry) (e : Entry) (name : List ℕ) (bound out : ℕ)
    → find_option options name ≡ some e
    → narrow bound (glip_option_get_uint32 strtoul options name 0) out
      ≡ narrowed bound (option_number (strtoul e.value)) out
unfolding narrow glip_option_get_uint32 entry_out number_out
narrow_number strtoul options e name bound out found =
    rw found (elim (Option-cases (option_number (strtoul e.value))) [
      | inl failure ↦ rw failure refl
      | inr (val, parsed) ↦ rw parsed (ap (λ k. (ok, k)) (ground arith))
    ])

uint32_number :
    (strtoul : List ℕ → Number) (options : List Entry) (e : Entry) (name : List ℕ) (out : ℕ)
    → find_option options name ≡ some e
    → glip_option_get_uint32 strtoul options name out
      ≡ narrowed (2 ^ 32 - 1) (option_number (strtoul e.value)) out
unfolding glip_option_get_uint32 entry_out number_out
uint32_number strtoul options e name out found =
    rw found (elim (Option-cases (option_number (strtoul e.value))) [
      | inl failure ↦ rw failure refl
      | inr (val, parsed) ↦ rw parsed (ap (λ k. (ok, k)) (omega arith))
    ])

-- A number of an option that is not there.
pub glip_option_get-none :
    (strtoul : List ℕ → Number) (options : List Entry) (name : List ℕ) (out : ℕ)
    → HasNo name options
    → (glip_option_get_uint16 strtoul options name out ≡ (failed, out))
      × (glip_option_get_uint8 strtoul options name out ≡ (failed, out))
unfolding glip_option_get_uint16 glip_option_get_uint8 glip_option_get_uint32 entry_out narrow
glip_option_get-none strtoul options name out h =
    (rw (find_option-none options name h) refl, rw (find_option-none options name h) refl)

-- With an option of that name, the text getter gives the first one's value, and the 32 bit, 16 bit and 8 bit getters read it as a number: they fail
-- and leave `out` alone where its number cannot be read, and otherwise give the number modulo
-- 2^32, and of that at most 0xffff or 0xff. With no option of that name they fail and leave `out`
-- alone.
pub glip_option_get_lem :
    (strtoul : List ℕ → Number) (before : List Entry) (e : Entry) (after : List Entry)
    (name text : List ℕ) (out : ℕ)
    → HasNo e.name before
    → HasNo name before
    → let options = before ++ (e ∷ after) in
      let number = option_number (strtoul e.value) in
      (glip_option_get_uint32 strtoul options e.name out ≡ narrowed (2 ^ 32 - 1) number out)
      × (glip_option_get_uint16 strtoul options e.name out ≡ narrowed 0xffff number out)
      × (glip_option_get_uint8 strtoul options e.name out ≡ narrowed 0xff number out)
      × (glip_option_get_uint32 strtoul before name out ≡ (failed, out))
      × (glip_option_get_uint16 strtoul before name out ≡ (failed, out))
      × (glip_option_get_uint8 strtoul before name out ≡ (failed, out))
      × (glip_option_get_char options e.name text ≡ (ok, e.value))
      × (glip_option_get_char before name text ≡ (failed, text))
unfolding glip_option_get_uint32 glip_option_get_uint16 glip_option_get_uint8 glip_option_get_char
    narrow entry_out text_out
glip_option_get_lem strtoul before e after name text out first absent =
    let options = before ++ (e ∷ after) in
    let found = find_option-first before e after first in
    let missing = find_option-none before name absent in
    (
      uint32_number strtoul options e e.name out found,
      narrow_number strtoul options e e.name 0xffff out found,
      narrow_number strtoul options e e.name 0xff out found,
      rw missing refl,
      rw missing refl,
      rw missing refl,
      rw found refl,
      rw missing refl,
    )
