-- ===== src/Jtag/Text/Send/Laws.antt =====
-- Where `write_b` sends all bytes, and what an EAGAIN does to it.
use demo_testbench.Base.{
  ℕ, zero, suc, ◌+◌, ◌-◌, ◌%◌, ◌^◌, ◌≤◌, ◌<◌, ltb, if◌then◌else◌, List, [], ◌∷◌, ◌++◌, length, take,
  drop, Option, some, Outcome, done,
}
use demo_testbench.Base.{
  ◌≡◌, refl, sym, ap, ap₂, ◌∙◌, arith, Bool-cases, true, false, inl, inr, min, length-take,
  length-drop, drop-add,
}
use mathlib.Core.List.{append_assoc, append-nil}
use demo_testbench.Jtag.Text.Send.{Answer, took, again, other_error, write_loop_b, write_b}

-- The first `n` answers take at least a byte each.
unfoldable pub AllTake : ℕ → List Answer → Type 0
AllTake zero answers = Unit
AllTake (suc n) [] = ⊥
AllTake (suc n) (took k ∷ answers) = (0 < k) × AllTake n answers
AllTake (suc n) (again ∷ answers) = ⊥
AllTake (suc n) (other_error ∷ answers) = ⊥

took_next :
    (k : ℕ) (answers : List Answer) (buf : List ℕ) (at next : ℕ) (out out' : List ℕ)
    (r : Outcome (Option ℕ × List ℕ))
    → (at + length (take k (drop at buf))) % 2 ^ 64 ≡ next
    → out ++ take k (drop at buf) ≡ out'
    → (if ltb next (length buf) then write_loop_b answers buf next out' else done (some next, out'))
      ≡ r
    → write_loop_b (took k ∷ answers) buf at out ≡ r
unfolding write_loop_b
took_next k answers buf at next out out' r a b c = rw (a, b) c

again_next :
    (answers : List Answer) (buf : List ℕ) (at next : ℕ) (out : List ℕ)
    (r : Outcome (Option ℕ × List ℕ))
    → (at + (2 ^ 64 - 1)) % 2 ^ 64 ≡ next
    → (if ltb next (length buf) then write_loop_b answers buf next out else done (some next, out))
      ≡ r
    → write_loop_b (again ∷ answers) buf at out ≡ r
unfolding write_loop_b
again_next answers buf at next out r a c = rw a c

take_back : (k : ℕ) (l : List ℕ) → take k l ++ drop (length (take k l)) l ≡ l
take_back zero l = refl
take_back (suc k) [] = refl
take_back (suc k) (x ∷ l) = ap (λ t. x ∷ t) (take_back k l)

drop_end : (n : ℕ) (l : List ℕ) → length l ≤ n → drop n l ≡ []
drop_end zero [] h = refl
drop_end (suc n) [] h = refl
drop_end zero (x ∷ l) h = absurd (omega arith)
drop_end (suc n) (x ∷ l) h = drop_end n l (omega arith)

write_loop_lem :
    (n : ℕ) (answers : List Answer) (buf : List ℕ) (at : ℕ) (out : List ℕ)
    → AllTake n answers
    → at < length buf
    → length buf ≤ at + n
    → length buf < 2 ^ 63
    → write_loop_b answers buf at out ≡ done (some (length buf), out ++ drop at buf)
unfolding AllTake
write_loop_lem zero answers buf at out takes inside enough small = absurd (omega arith)
write_loop_lem (suc n) [] buf at out takes inside enough small = absurd takes
write_loop_lem (suc n) (again ∷ answers) buf at out takes inside enough small = absurd takes
write_loop_lem (suc n) (other_error ∷ answers) buf at out takes inside enough small = absurd takes
write_loop_lem (suc n) (took k ∷ answers) buf at out takes inside enough small =
    let xs = take k (drop at buf) in
    let len : length xs ≡ min k (length buf - at) =
      omega (arith, length-take k (drop at buf), length-drop at buf) in
    let next : (at + length xs) % 2 ^ 64 ≡ at + length xs = omega (arith, len) in
    let whole : out ++ drop at buf ≡ (out ++ xs) ++ drop (at + length xs) buf =
      ap (λ l. out ++ l)
        (sym (take_back k (drop at buf)) ∙ ap (λ l. xs ++ l) (sym (drop-add at (length xs) buf)))
      ∙ sym (append_assoc out xs (drop (at + length xs) buf)) in
    elim (Bool-cases (ltb (at + length xs) (length buf))) [
      | inl more ↦
          let rest =
            write_loop_lem n answers buf (at + length xs) (out ++ xs) takes.1 (ground (arith, more))
              (omega (arith, len, takes.0)) small in
          took_next k answers buf at (at + length xs) out (out ++ xs) _ next refl
            (rw more (rest ∙ ap (λ l. done (some (length buf), l)) (sym whole)))
      | inr last ↦
          let all : at + length xs ≡ length buf = ground (arith, len, last) in
          took_next k answers buf at (at + length xs) out (out ++ xs) _ next refl (
            rw last (
              ap₂ (λ j l. done (some j, l)) all
                (sym (
                  whole
                  ∙ (ap (λ l. (out ++ xs) ++ l) (drop_end (at + length xs) buf (omega (arith, all)))
                      ∙ append-nil (out ++ xs))))))
    ]

-- Of a command of some bytes: where each answer takes some, `write_b` writes it all, once. With an EAGAIN
-- before that, it writes nothing and returns 2^64 - 1, which is -1 for its caller; with an EAGAIN behind
-- the first `k` bytes, it writes the last of those twice, and returns the number as if all was well.
pub write_b_lem :
    (buf : List ℕ) (answers : List Answer) (k : ℕ)
    → AllTake (length buf + 1) answers
    → 0 < k
    → k < length buf
    → length buf < 2 ^ 63
    → (write_b answers buf ≡ done (some (length buf), buf))
      × (write_b (again ∷ answers) buf ≡ done (some (2 ^ 64 - 1), []))
      × (write_b (took k ∷ again ∷ answers) buf
          ≡ done (some (length buf), take k buf ++ drop (k - 1) buf))
unfolding write_b
write_b_lem buf answers k takes some_bytes fewer small =
    let n = length buf + 1 in
    let len : length (take k buf) ≡ k = omega (arith, length-take k buf) in
    let one : (0 + length (take k (drop 0 buf))) % 2 ^ 64 ≡ k = omega (arith, len) in
    let back : (k + (2 ^ 64 - 1)) % 2 ^ 64 ≡ k - 1 = omega arith in
    let more : ltb k (length buf) ≡ true = ground arith in
    let more' : ltb (k - 1) (length buf) ≡ true = ground arith in
    let stops : ltb (2 ^ 64 - 1) (length buf) ≡ false = ground arith in
    (
      write_loop_lem n answers buf 0 [] takes (omega arith) (omega arith) small,
      again_next answers buf 0 (2 ^ 64 - 1) [] _ (omega arith) (rw stops refl),
      took_next k (again ∷ answers) buf 0 k [] (take k buf) _ one refl (
          rw more (
            again_next answers buf k (k - 1) (take k buf) _ back (
              rw more' (
                write_loop_lem n answers buf (k - 1) (take k buf) takes (omega arith) (omega arith)
                  small)))),
    )
