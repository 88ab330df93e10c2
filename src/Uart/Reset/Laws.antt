-- ===== src/Uart/Reset/Laws.antt =====
-- A reset empties the rings, and the first speed that works is taken.
use demo_testbench.Base.{
  ℕ, ltb, if◌then◌else◌, List, [], ◌∷◌, length, drop, true, false, Option, none, some,
}
use demo_testbench.Base.{done, ok, ◌≡◌, refl, sym, ap, ◌∙◌, arith}
use demo_testbench.Cbuf.{Cbuf, fill_level, discard}
use demo_testbench.Cbuf.Valid.{IsValid, fill_level_lem}
use demo_testbench.Cbuf.Contents.{contents, length-contents}
use demo_testbench.Cbuf.Fifo.{get, discard_refines}
use demo_testbench.Uart.{Uart}
use demo_testbench.Uart.Reset.{
  clear, Probe, is_marked, is_known, known_speeds, autodetect, find_speed,
}

drop_whole : (xs : List ℕ) → drop (length xs) xs ≡ []
drop_whole [] = refl
drop_whole (x ∷ xs) = drop_whole xs

discard_all :
    (b : Cbuf)
    → IsValid b
    → let (s, b') = discard b (fill_level b) in
      (s ≡ ok) × (contents b' ≡ []) × IsValid b' × (b'.size ≡ b.size)
unfolding get
discard_all b v =
    let q = contents b in
    let level : fill_level b ≡ length q = fill_level_lem v ∙ sym (length-contents b) in
    let (s, left, valid, same) = discard_refines (fill_level b) v in
    let fits : ltb (length q) (fill_level b) ≡ false = ground (arith, level) in
    (
      s ∙ rw fits refl,
      left ∙ (rw fits refl ∙ (ap (λ n. drop n q) level ∙ drop_whole q)),
      valid,
      same,
    )

clear_from :
    (u : Uart)
    → (discard u.input_buffer (fill_level u.input_buffer)).0 ≡ ok
    → (discard u.output_buffer (fill_level u.output_buffer)).0 ≡ ok
    → clear u
      ≡ done (record u {
        input_buffer = (discard u.input_buffer (fill_level u.input_buffer)).1;
        output_buffer = (discard u.output_buffer (fill_level u.output_buffer)).1;
      })
unfolding clear
clear_from u a b = rw (a, b) refl

-- The assertions hold on valid rings, which are valid and empty then.
pub clear_lem :
    (u : Uart)
    → IsValid u.input_buffer
    → IsValid u.output_buffer
    → (input : Cbuf) × (output : Cbuf) × (clear u
        ≡ done (record u { input_buffer = input; output_buffer = output }))
      × (contents input ≡ [])
      × IsValid input
      × (contents output ≡ [])
      × IsValid output
clear_lem u v w =
    let (s, empty, valid, same) = discard_all u.input_buffer v in
    let (s', empty', valid', same') = discard_all u.output_buffer w in
    (_, _, clear_from u s s', empty, valid, empty', valid')

-- The first speed of a list that works.
pub first_marked : (ℕ → Probe) → List ℕ → Option ℕ
first_marked probe [] = none
first_marked probe (s ∷ speeds) = if is_marked (probe s) then some s else first_marked probe speeds

-- A known speed is tried first, and then those of the list, up to the first that works.
pub find_speed_lem :
    (probe : ℕ → Probe) (speed : ℕ)
    → is_known known_speeds speed ≡ true
    → find_speed probe speed
      ≡ first_marked probe (
          speed ∷ 4000000 ∷ 3000000 ∷ 2000000 ∷ 1000000 ∷ 500000 ∷ 230400 ∷ 115200 ∷ 57600 ∷ 38400
          ∷ 19200 ∷ 9600 ∷ [])
unfolding find_speed autodetect first_marked
find_speed_lem probe speed known = rw known refl
