-- ===== src/Glip/Options.antt =====
-- The options of a context, read as numbers and as texts.
pub mod Laws
use demo_testbench.Base.{
  ℕ, ◌-◌, ◌%◌, ◌^◌, ◌==◌, ltb, if◌then◌else◌, Bool, true, false, ◌&&◌, ◌||◌, not, List, [], ◌∷◌,
}
use demo_testbench.Base.{Option, none, some, Status, ok, failed, is_ok, texts_eq}
use demo_testbench.Glip.{Entry}

-- What `strtoul` gives for a text in base 0: the value, whether `errno` is ERANGE, whether it is
-- another error, and how many characters it has used.
pub record Number : Type 0 where
  pub val : ℕ
  pub erange : Bool
  pub other_error : Bool
  pub used : ℕ

-- The loop over the options.
pub find_option : List Entry → List ℕ → Option Entry
find_option [] option_name = none
find_option (e ∷ es) option_name =
    if texts_eq e.name option_name then some e else find_option es option_name

-- The value of an option that was found, unless `strtoul` failed.
pub option_number : Number → Option ℕ
option_number r =
    if (r.erange && (r.val == 2 ^ 64 - 1)) || ((r.erange || r.other_error) && (r.val == 0))
    then none
    else if r.used == 0
    then some 0
    else some r.val

number_out : Option ℕ → ℕ → Status × ℕ
number_out none out = (failed, out)
number_out (some val) out = (ok, val % 2 ^ 32)

entry_out : (List ℕ → Number) → Option Entry → ℕ → Status × ℕ
entry_out strtoul none out = (failed, out)
entry_out strtoul (some e) out = number_out (option_number (strtoul e.value)) out

-- The status, and what `out` points to.
pub glip_option_get_uint32 : (List ℕ → Number) → List Entry → List ℕ → ℕ → Status × ℕ
unfolding entry_out number_out
glip_option_get_uint32 strtoul options option_name out =
    entry_out strtoul (find_option options option_name) out

-- A number cut off at the largest that fits.
narrow : ℕ → Status × ℕ → ℕ → Status × ℕ
narrow bound (s, tmp) out = if is_ok s then (ok, if ltb bound tmp then bound else tmp) else (s, out)

pub glip_option_get_uint16 : (List ℕ → Number) → List Entry → List ℕ → ℕ → Status × ℕ
unfolding narrow
glip_option_get_uint16 strtoul options option_name out =
    narrow 0xffff (glip_option_get_uint32 strtoul options option_name 0) out

pub glip_option_get_uint8 : (List ℕ → Number) → List Entry → List ℕ → ℕ → Status × ℕ
unfolding narrow
glip_option_get_uint8 strtoul options option_name out =
    narrow 0xff (glip_option_get_uint32 strtoul options option_name 0) out

text_out : Option Entry → List ℕ → Status × List ℕ
text_out none out = (failed, out)
text_out (some e) out = (ok, e.value)

pub glip_option_get_char : List Entry → List ℕ → List ℕ → Status × List ℕ
unfolding text_out
glip_option_get_char options option_name out = text_out (find_option options option_name) out
