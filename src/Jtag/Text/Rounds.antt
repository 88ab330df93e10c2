-- ===== src/Jtag/Text/Rounds.antt =====
-- The rounds of the loop over the fields of a request.
use demo_testbench.Base.{
  zero, suc, take, drop, add_size, hang, fault, min, ◌-◌, length-drop, drop-add,
}
use demo_testbench.Uart.{min_int}
use demo_testbench.Uart.Thread.Laws.{min_int_lem}
use demo_testbench.Base.{ℕ, ◌+◌, ◌*◌, ◌^◌, ◌≤◌, ◌<◌, ltb, leb, List, [], ◌∷◌, length}
use demo_testbench.Base.{Outcome, done, abort, ◌>>=◌, ◌≡◌, refl, sym, ap, ◌∙◌, arith, true, false}
use demo_testbench.Jtag.Text.{Cmdbuf, append_field, append_fields}

-- A request in fields of four bytes, and a shorter last one.
unfoldable pub append_chunks : Cmdbuf → List ℕ → Outcome Cmdbuf
append_chunks b [] = done b
append_chunks b (w ∷ []) = append_field b 1 (w ∷ [])
append_chunks b (w ∷ x ∷ []) = append_field b 2 (w ∷ x ∷ [])
append_chunks b (w ∷ x ∷ y ∷ []) = append_field b 3 (w ∷ x ∷ y ∷ [])
append_chunks b (w ∷ x ∷ y ∷ z ∷ rest) =
    append_field b 4 (w ∷ x ∷ y ∷ z ∷ []) >>= λ b'. append_chunks b' rest

-- A round of the loop, with the bytes `xs` left.
append_round :
    (fuel : ℕ) (b : Cmdbuf) (req : List ℕ) (at k : ℕ) (xs : List ℕ)
    → drop at req ≡ xs
    → 0 < length xs
    → length req < 2 ^ 31
    → min (length xs) 4 ≡ k
    → append_fields (suc fuel) b req at
      ≡ (append_field b k (take k xs) >>= λ b'. append_fields fuel b' req (at + k))
unfolding append_fields
append_round fuel b req at k xs e some_bytes small least =
    let len : length req - at ≡ length xs = sym (length-drop at req) ∙ ap (λ l. length l) e in
    let size : min_int (length req - at) 4 ≡ k =
      min_int_lem (length req - at) 4 (omega arith) (omega arith)
      ∙ (ap (λ n. min n 4) len ∙ least) in
    let more : ltb at (length req) ≡ true = ground (arith, len) in
    let plain : leb (2 ^ 63) k ≡ false = ground (arith, least) in
    let next : add_size at k ≡ at + k = omega (arith, least, len) in
    rw (size, e, more, plain, next) refl

bind_done : (m : Outcome Cmdbuf) → (m >>= λ b. done b) ≡ m
bind_done (done b) = refl
bind_done fault = refl
bind_done abort = refl
bind_done hang = refl

later : (at k : ℕ) (req xs : List ℕ) → drop at req ≡ xs → drop (at + k) req ≡ drop k xs
later at k req xs e = drop-add at k req ∙ ap (λ l. drop k l) e

-- With rounds enough for a request below 2^31 bytes, the loop appends those fields.
pub append_fields-chunks :
    (fuel : ℕ) (b : Cmdbuf) (req : List ℕ) (at : ℕ) (xs : List ℕ)
    → drop at req ≡ xs
    → length req < 2 ^ 31
    → length xs + 4 ≤ 4 * fuel
    → append_fields fuel b req at ≡ append_chunks b xs
unfolding append_fields append_chunks
append_fields-chunks zero b req at xs e small enough = absurd (omega arith)
append_fields-chunks (suc fuel) b req at [] e small enough =
    let len : length req - at ≡ 0 = sym (length-drop at req) ∙ ap (λ l. length l) e in
    let over : ltb at (length req) ≡ false = ground (arith, len) in rw over refl
append_fields-chunks (suc fuel) b req at (w ∷ []) e small enough =
    append_round fuel b req at 1 (w ∷ []) e (omega arith) small (omega arith)
    ∙ ((λ i. append_field b 1 (w ∷ []) >>= λ b'.
          append_fields-chunks fuel b' req (at + 1) [] (later at 1 req (w ∷ []) e) small
            (omega arith) i)
        ∙ bind_done (append_field b 1 (w ∷ [])))
append_fields-chunks (suc fuel) b req at (w ∷ x ∷ []) e small enough =
    append_round fuel b req at 2 (w ∷ x ∷ []) e (omega arith) small (omega arith)
    ∙ ((λ i. append_field b 2 (w ∷ x ∷ []) >>= λ b'.
          append_fields-chunks fuel b' req (at + 2) [] (later at 2 req (w ∷ x ∷ []) e) small
            (omega arith) i)
        ∙ bind_done (append_field b 2 (w ∷ x ∷ [])))
append_fields-chunks (suc fuel) b req at (w ∷ x ∷ y ∷ []) e small enough =
    append_round fuel b req at 3 (w ∷ x ∷ y ∷ []) e (omega arith) small (omega arith)
    ∙ ((λ i. append_field b 3 (w ∷ x ∷ y ∷ []) >>= λ b'.
          append_fields-chunks fuel b' req (at + 3) [] (later at 3 req (w ∷ x ∷ y ∷ []) e) small
            (omega arith) i)
        ∙ bind_done (append_field b 3 (w ∷ x ∷ y ∷ [])))
append_fields-chunks (suc fuel) b req at (w ∷ x ∷ y ∷ z ∷ rest) e small enough =
    append_round fuel b req at 4 (w ∷ x ∷ y ∷ z ∷ rest) e (omega arith) small (omega arith) ∙ (λ i.
      append_field b 4 (w ∷ x ∷ y ∷ z ∷ []) >>= λ b'.
      append_fields-chunks fuel b' req (at + 4) rest (later at 4 req (w ∷ x ∷ y ∷ z ∷ rest) e) small
        (omega arith) i)
