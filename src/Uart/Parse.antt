-- ===== src/Uart/Parse.antt =====
-- `parse_buffer` takes apart what the items make up on the line.
use mathlib.Core.List.{append_assoc}
use demo_testbench.Base.{ℕ, suc, ◌-◌, ◌≤◌, ◌<◌, ◌==◌, List, [], ◌∷◌, ◌++◌, length}
use demo_testbench.Base.{
  ◌≡◌, ◌≢◌, refl, ap, ap₂, ◌∙◌, inl, inr, done, ◌>>=◌, arith, Bool-cases, false,
}
use demo_testbench.Base.{>>=-eq-done}
use demo_testbench.Uart.{Uart, marker, put_word, update_debt, marker_last, parse_buffer}
use demo_testbench.Uart.Serial.{Event}
use demo_testbench.Uart.Serial.Laws.{IsReady}
use demo_testbench.Uart.Items.{
  Item, word, credit_given, encode_item, encode, AreItems, deliver_item,
}
use demo_testbench.Uart.Items.{deliver, IsCut, with_line, receive_byte_lem, cons_eq, parse_word}
use demo_testbench.Uart.Items.{parse_marker, parse_credit, put_word-with_line}

-- What a parse of `chunk` comes to: the state `v`, with `tail` left on the line.
abbrev Parses : Uart → List ℕ → Uart → List ℕ → Type 0
Parses u chunk v tail =
    (reads' : List Event) × (parse_buffer u chunk ≡ done (with_line v tail reads'))

Parses-chunk :
    (u v : Uart) (chunk chunk' tail : List ℕ)
    → chunk ≡ chunk'
    → Parses u chunk' v tail
    → Parses u chunk v tail
Parses-chunk u v chunk chunk' tail e (reads', runs) = (reads', ap (parse_buffer u) e ∙ runs)

Parses-state :
    (u v v' : Uart) (chunk tail : List ℕ)
    → done v ≡ done v'
    → Parses u chunk v tail
    → Parses u chunk v' tail
Parses-state u v v' chunk tail d (reads', runs) =
    (reads', runs ∙ ap (λ m. m >>= λ (t : Uart). done (with_line t tail reads')) d)

-- A doubled marker is cut in two: its second half comes from the line.
parse_half_marker :
    (u v : Uart) (tail : List ℕ)
    → put_word u marker ≡ done v
    → u.line.pending ≡ marker ∷ tail
    → IsReady 2 u.line.reads
    → Parses u (marker ∷ []) v tail
unfolding parse_buffer marker_last
parse_half_marker u v tail put e r =
    let (reads', runs, r') = receive_byte_lem u marker tail 1 e r in
    (reads', rw runs (put_word-with_line u v marker tail reads' put).0)

-- A credit message is cut after its first byte, or after its second.
parse_credit_one :
    (u : Uart) (first second : ℕ) (tail : List ℕ)
    → (first == marker) ≡ false
    → u.line.pending ≡ first ∷ second ∷ tail
    → IsReady 2 u.line.reads
    → Parses u (marker ∷ []) (update_debt u first second) tail
unfolding parse_buffer marker_last update_debt
parse_credit_one u first second tail ne e r =
    let (reads1, runs1, r1) = receive_byte_lem u first (second ∷ tail) 1 e r in
    let (reads2, runs2, r2) =
      receive_byte_lem (with_line u (second ∷ tail) reads1) second tail 0 refl r1 in
    (reads2, rw (runs1, ne, runs2) refl)

parse_credit_two :
    (u : Uart) (first second : ℕ) (tail : List ℕ)
    → (first == marker) ≡ false
    → u.line.pending ≡ second ∷ tail
    → IsReady 2 u.line.reads
    → Parses u (marker ∷ first ∷ []) (update_debt u first second) tail
unfolding parse_buffer update_debt
parse_credit_two u first second tail ne e r =
    let (reads1, runs1, r1) = receive_byte_lem u second tail 1 e r in (reads1, rw (ne, runs1) refl)

-- The cut of the items after one that lies whole in the buffer.
IsCut-rest :
    (it : Item) (its : List Item) (n : ℕ)
    → IsCut (it ∷ its) n
    → length (encode_item it) ≤ n
    → IsCut its (n - length (encode_item it))
IsCut-rest it its n (pos, inl (le, none_left)) h = rw none_left (omega arith)
IsCut-rest it its n (pos, inr (le, cut)) h = cut

-- An item that reaches beyond the buffer is the last.
IsCut-last :
    (it : Item) (its : List Item) (n : ℕ)
    → IsCut (it ∷ its) n
    → n < length (encode_item it)
    → its ≡ []
IsCut-last it its n (pos, inl (le, none_left)) h = none_left
IsCut-last it its n (pos, inr (le, cut)) h = absurd (omega arith)

no_items :
    (u v : Uart) (tail : List ℕ)
    → done u ≡ done v
    → u.line.pending ≡ tail
    → parse_buffer u [] ≡ done (with_line v tail u.line.reads)
unfolding parse_buffer
no_items u v tail d e =
    ap (λ p. done (with_line u p u.line.reads)) e
    ∙ ap (λ m. m >>= λ (t : Uart). done (with_line t tail u.line.reads)) d

-- Taking an item apart, given how the items after it are taken apart.
module _ (its : List Item) (v : Uart) (tail : List ℕ)
    (ih : (u : Uart) (chunk : List ℕ)
      → deliver u its ≡ done v
      → IsCut its (length chunk)
      → chunk ++ u.line.pending ≡ encode its ++ tail
      → IsReady 2 u.line.reads
      → Parses u chunk v tail) where
  -- After a word that was put the line is as it was.
  parse_rest :
      (u u1 : Uart) (w : ℕ) (chunk : List ℕ)
      → put_word u w ≡ done u1
      → deliver u1 its ≡ done v
      → IsCut its (length chunk)
      → chunk ++ u.line.pending ≡ encode its ++ tail
      → IsReady 2 u.line.reads
      → Parses u1 chunk v tail
  parse_rest u u1 w chunk put d cut e r =
      let same = (put_word-with_line u u1 w [] [] put).1 in
      ih u1 chunk d cut (rw same e) (rw same r)

  parse_plain :
      (u u1 : Uart) (w a : ℕ) (chunk : List ℕ)
      → (w == marker) ≡ false
      → put_word u w ≡ done u1
      → deliver u1 its ≡ done v
      → IsCut (word w ∷ its) (suc (length chunk))
      → a ∷ (chunk ++ u.line.pending) ≡ encode_item (word w) ++ (encode its ++ tail)
      → IsReady 2 u.line.reads
      → Parses u (a ∷ chunk) v tail
  parse_plain u u1 w a chunk plain put d cut e r =
      let enc : encode_item (word w) ≡ w ∷ [] = rw plain refl in
      let (head, rest) = cons_eq a w (chunk ++ u.line.pending) (encode its ++ tail) (rw enc at e) in
      let len : length (encode_item (word w)) ≡ 1 = rw enc refl in
      let cut' = IsCut-rest (word w) its (suc (length chunk)) cut (omega arith) in
      let one : suc (length chunk) - length (encode_item (word w)) ≡ length chunk = omega arith in
      let (reads', runs) = parse_rest u u1 w chunk put d (rw one at cut') rest r in
      (reads', rw (head, parse_word u w chunk plain, put) runs)

  parse_doubled :
      (u u1 : Uart) (a : ℕ) (chunk : List ℕ)
      → put_word u marker ≡ done u1
      → deliver u1 its ≡ done v
      → IsCut (word marker ∷ its) (suc (length chunk))
      → a ∷ (chunk ++ u.line.pending) ≡ marker ∷ marker ∷ (encode its ++ tail)
      → IsReady 2 u.line.reads
      → Parses u (a ∷ chunk) v tail
  unfolding deliver
  parse_doubled u u1 a [] put d cut e r =
      let (head, rest) = cons_eq a marker u.line.pending (marker ∷ (encode its ++ tail)) e in
      let last = IsCut-last (word marker) its 1 cut (omega arith) in
      let ended : encode its ++ tail ≡ tail = rw last refl in
      let same : done u1 ≡ done v = rw last at d in
      rw head (parse_half_marker u v tail (put ∙ same) (rw ended at rest) r)
  parse_doubled u u1 a (b ∷ chunk) put d cut e r =
      let (head, rest) =
        cons_eq a marker (b ∷ (chunk ++ u.line.pending)) (marker ∷ (encode its ++ tail)) e in
      let (head', rest') = cons_eq b marker (chunk ++ u.line.pending) (encode its ++ tail) rest in
      let cut' = IsCut-rest (word marker) its (suc (suc (length chunk))) cut (omega arith) in
      let two : suc (suc (length chunk)) - 2 ≡ length chunk = omega arith in
      let (reads', runs) = parse_rest u u1 marker chunk put d (rw two at cut') rest' r in
      (reads', rw (head, head', parse_marker u chunk, put) runs)

  after_debt :
      (u : Uart) (first second : ℕ) (chunk : List ℕ)
      → deliver (update_debt u first second) its ≡ done v
      → IsCut its (length chunk)
      → chunk ++ u.line.pending ≡ encode its ++ tail
      → IsReady 2 u.line.reads
      → Parses (update_debt u first second) chunk v tail
  unfolding update_debt
  after_debt u first second chunk d cut e r = ih (update_debt u first second) chunk d cut e r

  parse_message :
      (u : Uart) (first second a : ℕ) (chunk : List ℕ)
      → first ≢ marker
      → deliver (update_debt u first second) its ≡ done v
      → IsCut (credit_given first second ∷ its) (suc (length chunk))
      → a ∷ (chunk ++ u.line.pending) ≡ marker ∷ first ∷ second ∷ (encode its ++ tail)
      → IsReady 2 u.line.reads
      → Parses u (a ∷ chunk) v tail
  unfolding deliver
  parse_message u first second a [] ne d cut e r =
      let (head, rest) =
        cons_eq a marker u.line.pending (first ∷ second ∷ (encode its ++ tail)) e in
      let last = IsCut-last (credit_given first second) its 1 cut (omega arith) in
      let ended : encode its ++ tail ≡ tail = rw last refl in
      let same : done (update_debt u first second) ≡ done v = rw last at d in
      let other : (first == marker) ≡ false = ground arith in
      Parses-chunk u v (a ∷ []) (marker ∷ []) tail (ap (λ k. k ∷ []) head) (
        Parses-state u (update_debt u first second) v (marker ∷ []) tail same
          (parse_credit_one u first second tail other (rw ended at rest) r))
  parse_message u first second a (b ∷ []) ne d cut e r =
      let (head, rest) =
        cons_eq a marker (b ∷ u.line.pending) (first ∷ second ∷ (encode its ++ tail)) e in
      let (head', rest') = cons_eq b first u.line.pending (second ∷ (encode its ++ tail)) rest in
      let last = IsCut-last (credit_given first second) its 2 cut (omega arith) in
      let ended : encode its ++ tail ≡ tail = rw last refl in
      let same : done (update_debt u first second) ≡ done v = rw last at d in
      let other : (first == marker) ≡ false = ground arith in
      Parses-chunk u v (a ∷ b ∷ []) (marker ∷ first ∷ []) tail (ap₂ (λ k l. k ∷ l ∷ []) head head')
        (Parses-state u (update_debt u first second) v (marker ∷ first ∷ []) tail same
          (parse_credit_two u first second tail other (rw ended at rest') r))
  parse_message u first second a (b ∷ c ∷ chunk) ne d cut e r =
      let all = chunk ++ u.line.pending in
      let (head, rest) = cons_eq a marker (b ∷ c ∷ all) (first ∷ second ∷ (encode its ++ tail)) e in
      let (head', rest') = cons_eq b first (c ∷ all) (second ∷ (encode its ++ tail)) rest in
      let (head'', rest'') = cons_eq c second all (encode its ++ tail) rest' in
      let three : suc (suc (suc (length chunk))) - 3 ≡ length chunk = omega arith in
      let other : (first == marker) ≡ false = ground arith in
      let cut' =
        IsCut-rest (credit_given first second) its (suc (suc (suc (length chunk)))) cut
          (omega arith) in
      let (reads', runs) = after_debt u first second chunk d (rw three at cut') rest'' r in
      (reads', rw (head, head', head'', parse_credit u first second chunk other) runs)

-- Given bytes on the line that make up items, which, done one after another, fail no assertion
-- (so there is credit and room for their words), a buffer with the first of those bytes that ends
-- within or at the end of the last item, and two answers that move a byte before any error: then
-- parse_buffer does what the items do one after another, and reads from the line just the rest of
-- the last item.
pub parse_buffer-encode :
    (its : List Item) (u v : Uart) (chunk tail : List ℕ)
    → AreItems its
    → deliver u its ≡ done v
    → IsCut its (length chunk)
    → chunk ++ u.line.pending ≡ encode its ++ tail
    → IsReady 2 u.line.reads
    → (reads' : List Event) × (parse_buffer u chunk ≡ done (with_line v tail reads'))
unfolding deliver deliver_item
parse_buffer-encode [] u v [] tail items d cut e r = (u.line.reads, no_items u v tail d e)
parse_buffer-encode [] u v (a ∷ chunk) tail items d cut e r = absurd (omega arith)
parse_buffer-encode (it ∷ its) u v [] tail items d (pos, cut) e r = absurd (omega arith)
parse_buffer-encode (word w ∷ its) u v (a ∷ chunk) tail items d cut e r =
    let (u1, put, rest) = >>=-eq-done (put_word u w) (λ u'. deliver u' its) d in
    let ih = λ (u' : Uart) (c : List ℕ). parse_buffer-encode its u' v c tail items.1 in
    let e' = e ∙ append_assoc (encode_item (word w)) (encode its) tail in
    elim (Bool-cases (w == marker)) [
      | inr plain ↦ parse_plain its v tail ih u u1 w a chunk plain put rest cut e' r
      | inl doubled ↦
          let same : w ≡ marker = ground arith in
          parse_doubled its v tail ih u u1 a chunk (rw same at put) rest (rw same at cut)
            (rw same at e') r
    ]
parse_buffer-encode (credit_given first second ∷ its) u v (a ∷ chunk) tail items d cut e r =
    parse_message its v tail (λ u' c. parse_buffer-encode its u' v c tail items.1) u first second a
      chunk items.0.0 d cut
      (e ∙ append_assoc (encode_item (credit_given first second)) (encode its) tail) r
