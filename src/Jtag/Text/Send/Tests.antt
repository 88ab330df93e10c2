-- ===== src/Jtag/Text/Send/Tests.antt =====
-- A command of three bytes, which goes out in two pieces, with an EAGAIN behind the first one.
use demo_testbench.Base.{◌-◌, ◌^◌, List, [], ◌∷◌, ◌++◌, take, drop, some, done, ◌≡◌, refl, arith}
use demo_testbench.Jtag.Text.Send.{Answer, took, again, write_loop_b, write_b}
use demo_testbench.Jtag.Text.Send.Laws.{AllTake, write_b_lem}

abbrev answers : List Answer
answers = took 2 ∷ took 1 ∷ took 7 ∷ took 7 ∷ []

repeated : write_b (took 2 ∷ again ∷ answers) (1 ∷ 2 ∷ 3 ∷ []) ≡ done (some 3, 1 ∷ 2 ∷ 2 ∷ 3 ∷ [])
unfolding write_b write_loop_b
repeated = refl

write_b_lem_example :
    (write_b answers (1 ∷ 2 ∷ 3 ∷ []) ≡ done (some 3, 1 ∷ 2 ∷ 3 ∷ []))
    × (write_b (again ∷ answers) (1 ∷ 2 ∷ 3 ∷ []) ≡ done (some (2 ^ 64 - 1), []))
    × (write_b (took 2 ∷ again ∷ answers) (1 ∷ 2 ∷ 3 ∷ [])
        ≡ done (some 3, take 2 (1 ∷ 2 ∷ 3 ∷ []) ++ drop (2 - 1) (1 ∷ 2 ∷ 3 ∷ [])))
unfolding AllTake
write_b_lem_example =
    write_b_lem (1 ∷ 2 ∷ 3 ∷ []) answers 2
      (omega arith, (omega arith, (omega arith, (omega arith, tt)))) (omega arith) (omega arith)
      (omega arith)
