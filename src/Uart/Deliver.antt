-- ===== src/Uart/Deliver.antt =====
-- What the items that arrive do to the input ring, the credit and the debt.
use mathlib.Core.List.{append_assoc, append-nil}
use demo_testbench.Base.{ℕ, ◌+◌, ◌*◌, ◌/◌, ◌%◌, ◌≤◌, ◌<◌, ltb, take, List, [], ◌∷◌, ◌++◌, length}
use demo_testbench.Base.{length-append, add_size, ◌≡◌, refl, ap, ◌∙◌, sym, arith, false, done, ok}
use demo_testbench.Cbuf.{Cbuf}
use demo_testbench.Cbuf.Valid.{IsValid}
use demo_testbench.Cbuf.Contents.{contents}
use demo_testbench.Cbuf.Fifo.{put, write_refines}
use demo_testbench.Uart.{Uart, put_word, update_debt}
use demo_testbench.Uart.Messages.{debt_value}
use demo_testbench.Uart.Items.{
  Item, word, credit_given, AreItems, deliver, deliver_item, stored, put_word_of,
}

abbrev pub words_of : List Item → List ℕ
words_of [] = []
words_of (word w ∷ its) = w ∷ words_of its
words_of (credit_given first second ∷ its) = words_of its

-- A debt after the credit messages among the items.
abbrev pub debt_after : ℕ → List Item → ℕ
debt_after d [] = d
debt_after d (word w ∷ its) = debt_after d its
debt_after d (credit_given first second ∷ its) =
    debt_after (add_size d (first / 2 % 128 * 256 + second)) its

-- What delivering items comes to.
pub record Delivered (u v : Uart) (its : List Item) : Type 0 where
  pub in_ring : contents v.input_buffer ≡ contents u.input_buffer ++ words_of its
  pub ring_valid : IsValid v.input_buffer
  pub same_size : v.input_buffer.size ≡ u.input_buffer.size
  pub credit_used : v.credit + length (words_of its) ≡ u.credit
  pub debt_raised : v.debt ≡ debt_after u.debt its
  pub same_output : v.output_buffer ≡ u.output_buffer

-- Room and credit for one more word.
store_lem :
    (u : Uart) (w : ℕ)
    → IsValid u.input_buffer
    → length (contents u.input_buffer) < u.input_buffer.size
    → 0 < u.credit
    → (buf : Cbuf) × (put_word u w ≡ done (stored u buf))
      × (contents buf ≡ contents u.input_buffer ++ w ∷ [])
      × IsValid buf
      × (buf.size ≡ u.input_buffer.size)
unfolding put
store_lem u w v room credit =
    let q = contents u.input_buffer in
    let fits : ltb (u.input_buffer.size) (length q + 1) ≡ false = ground arith in
    let taken : put u.input_buffer.size q (take 1 (w ∷ [])) ≡ (ok, q ++ (w ∷ [])) = rw fits refl in
    let (buf, runs, holds, valid, same) = write_refines (w ∷ []) 1 v (omega arith) in
    (buf, put_word_of u w buf (ground arith) (rw taken at runs), rw taken at holds, valid, same)

-- A credit message touches only the debt.
update_debt_lem :
    (u : Uart) (first second : ℕ)
    → second < 256
    → update_debt u first second
      ≡ record u { debt = add_size u.debt (first / 2 % 128 * 256 + second) }
unfolding update_debt
update_debt_lem u first second h = ap (λ d. record u { debt = d }) (debt_value u first second h)

-- Where the ring has room and the logic had credit for all words among the items, each item is
-- taken: the words are in the ring in order behind what it held, each has used one of the credit,
-- and the debt is raised by what the credit messages carry.
pub deliver-words_of :
    (its : List Item) (u : Uart)
    → AreItems its
    → IsValid u.input_buffer
    → length (contents u.input_buffer) + length (words_of its) ≤ u.input_buffer.size
    → length (words_of its) ≤ u.credit
    → (v : Uart) × (deliver u its ≡ done v) × Delivered u v its
unfolding deliver deliver_item stored
deliver-words_of [] u items ok_ring room credit = (
  u,
  refl,
  record {
    in_ring = sym (append-nil (contents u.input_buffer));
    ring_valid = ok_ring;
    same_size = refl;
    credit_used = omega arith;
    debt_raised = refl;
    same_output = refl;
  },
)
deliver-words_of (word w ∷ its) u items ok_ring room credit =
    let q = contents u.input_buffer in
    let (buf, runs, holds, valid, same) = store_lem u w ok_ring (omega arith) (omega arith) in
    let longer : length (contents buf) ≡ length q + 1 = rw holds (length-append q (w ∷ [])) in
    let (v, all, d) =
      deliver-words_of its (stored u buf) items.1 valid (omega arith) (omega arith) in
    (
      v,
      rw runs all,
      record {
        in_ring =
            d.in_ring
            ∙ (ap (λ l. l ++ words_of its) holds ∙ append_assoc q (w ∷ []) (words_of its));
        ring_valid = d.ring_valid;
        same_size = d.same_size ∙ same;
        credit_used = omega (arith, d.credit_used);
        debt_raised = d.debt_raised;
        same_output = d.same_output;
      },
    )
deliver-words_of (credit_given first second ∷ its) u items ok_ring room credit =
    let u1 = record u { debt = add_size u.debt (first / 2 % 128 * 256 + second) } in
    let (v, all, d) = deliver-words_of its u1 items.1 ok_ring room credit in
    (
      v,
      ap (λ u'. deliver u' its) (update_debt_lem u first second items.0.1) ∙ all,
      record {
        in_ring = d.in_ring;
        ring_valid = d.ring_valid;
        same_size = d.same_size;
        credit_used = d.credit_used;
        debt_raised = d.debt_raised;
        same_output = d.same_output;
      },
    )
