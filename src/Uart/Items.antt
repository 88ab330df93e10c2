-- ===== src/Uart/Items.antt =====
-- What the logic sends: data words and credit messages. They cross the line as bytes, and
-- `parse_buffer` gives them back wherever the bytes are cut.
use demo_testbench.Base.{ℕ, ◌+◌, ◌-◌, ◌≤◌, ◌<◌, ◌==◌, ltb, if◌then◌else◌, drop}
use demo_testbench.Base.{List, [], ◌∷◌, ◌++◌, length, ◌≡◌, ◌≢◌, refl, ap, ◌⊎◌}
use demo_testbench.Base.{
  Outcome, done, fault, abort, hang, get_or, ◌>>=◌, ok, is_ok, assert_that, arith, true, false, sym,
}
use demo_testbench.Base.{Status, >>=-eq-done, Bool}
use demo_testbench.Cbuf
use demo_testbench.Cbuf.{Cbuf}
use demo_testbench.Uart.{Uart, marker, no_time, receive, receive_byte, put_word, update_debt}
use demo_testbench.Uart.{parse_buffer}
use demo_testbench.Uart.Serial.{Event}
use demo_testbench.Uart.Serial.Laws.{IsReady, read_blocking_lem}

pub data Item : Type 0 where
  word : ℕ → Item
  credit_given : ℕ → ℕ → Item

-- The bytes of an item: a word that is the marker is sent twice.
abbrev pub encode_item : Item → List ℕ
encode_item (word w) = if w == marker then marker ∷ marker ∷ [] else w ∷ []
encode_item (credit_given first second) = marker ∷ first ∷ second ∷ []

abbrev pub encode : List Item → List ℕ
encode [] = []
encode (it ∷ its) = encode_item it ++ encode its

-- The first byte of a credit message is not the marker, and the second is a byte.
abbrev pub IsItem : Item → Type 0
IsItem (word w) = Unit
IsItem (credit_given first second) = (first ≢ marker) × (second < 256)

abbrev pub AreItems : List Item → Type 0
AreItems [] = Unit
AreItems (it ∷ its) = IsItem it × AreItems its

-- What an item does to the backend.
unfoldable pub deliver_item : Uart → Item → Outcome Uart
deliver_item u (word w) = put_word u w
deliver_item u (credit_given first second) = done (update_debt u first second)

unfoldable pub deliver : Uart → List Item → Outcome Uart
deliver u [] = done u
deliver u (it ∷ its) = deliver_item u it >>= λ u'. deliver u' its

-- The first `n` bytes of the encoded items hold all items, the last perhaps in part.
abbrev pub IsCut : List Item → ℕ → Type 0
IsCut [] n = n ≡ 0
IsCut (it ∷ its) n =
    (0 < n)
    × (((n ≤ length (encode_item it)) × (its ≡ []))
        ⊎ ((length (encode_item it) ≤ n) × IsCut its (n - length (encode_item it))))

-- A backend with another terminal.
abbrev pub with_line : Uart → List ℕ → List Event → Uart
with_line u pending' reads' = record u {
  line = record (u.line) { pending = pending'; reads = reads' };
}

-- With a byte pending and an answer ready, reading one byte gives it.
pub receive_byte_lem :
    (u : Uart) (byte : ℕ) (rest : List ℕ) (more : ℕ)
    → u.line.pending ≡ byte ∷ rest
    → IsReady (1 + more) u.line.reads
    → (reads' : List Event) × (receive_byte u ≡ done (byte, with_line u rest reads'))
      × IsReady more reads'
unfolding receive_byte receive
receive_byte_lem u byte rest more e r =
    let (reads', runs, r') =
      read_blocking_lem u.line no_time 1 more (omega arith) (rw e (omega arith)) r in
    (reads', rw (runs, e) refl, r')

pub >>=_done {ℓ} : {A : Type ℓ} (m : Outcome A) → (m >>= λ x. done x) ≡ m
>>=_done (done a) = refl
>>=_done fault = refl
>>=_done abort = refl
>>=_done hang = refl

pub cons_eq : (a b : ℕ) (xs ys : List ℕ) → a ∷ xs ≡ b ∷ ys → (a ≡ b) × (xs ≡ ys)
cons_eq a b xs ys e = (ap (λ l. get_or l 0 0) e, ap (λ l. drop 1 l) e)

-- The three ways to go on after an item that lies whole in the buffer.
pub parse_word :
    (u : Uart) (w : ℕ) (rest : List ℕ)
    → (w == marker) ≡ false
    → parse_buffer u (w ∷ rest) ≡ (put_word u w >>= λ u'. parse_buffer u' rest)
unfolding parse_buffer
parse_word u w [] e = rw e (sym (>>=_done (put_word u w)))
parse_word u w (b ∷ []) e = rw e refl
parse_word u w (b ∷ c ∷ rest) e = rw e refl

pub parse_marker :
    (u : Uart) (rest : List ℕ)
    → parse_buffer u (marker ∷ marker ∷ rest) ≡ (put_word u marker >>= λ u'. parse_buffer u' rest)
unfolding parse_buffer
parse_marker u [] = sym (>>=_done (put_word u marker))
parse_marker u (c ∷ rest) = refl

pub parse_credit :
    (u : Uart) (first second : ℕ) (rest : List ℕ)
    → (first == marker) ≡ false
    → parse_buffer u (marker ∷ first ∷ second ∷ rest)
      ≡ parse_buffer (update_debt u first second) rest
unfolding parse_buffer
parse_credit u first second rest e = rw e refl

ok_of_is_ok : (s : Status) → is_ok s ≡ true → s ≡ ok
ok_of_is_ok ok e = refl
ok_of_is_ok _ e = cc

assert_done : (b : Bool) {t : Unit {0}} → assert_that b ≡ done t → b ≡ true
assert_done true e = refl
assert_done false e = cc

-- A word is put exactly where there is credit for it and the ring takes it.
unfoldable pub stored : Uart → Cbuf → Uart
stored u buf = record u { input_buffer = buf; credit = u.credit - 1 }

pub put_word_of :
    (u : Uart) (w : ℕ) (buf : Cbuf)
    → ltb 0 u.credit ≡ true
    → Cbuf.write u.input_buffer (w ∷ []) 1 ≡ done (ok, buf)
    → put_word u w ≡ done (stored u buf)
unfolding put_word stored
put_word_of u w buf c e = rw (c, e) refl

pub put_word_done :
    (u v : Uart) (w : ℕ)
    → put_word u w ≡ done v
    → (buf : Cbuf) × (ltb 0 u.credit ≡ true)
      × (Cbuf.write u.input_buffer (w ∷ []) 1 ≡ done (ok, buf))
      × (v ≡ stored u buf)
unfolding put_word stored
put_word_done u v w e =
    let (t, allowed, e1) = >>=-eq-done (assert_that (ltb 0 u.credit)) _ e in
    let ((s, buf), written, e2) = >>=-eq-done (Cbuf.write u.input_buffer (w ∷ []) 1) _ e1 in
    let (t', taken, e3) = >>=-eq-done (assert_that (is_ok s)) _ e2 in
    let fine : s ≡ ok = ok_of_is_ok s (assert_done (is_ok s) taken) in
    (buf, assert_done (ltb 0 u.credit) allowed, rw (← fine) written, cc)

-- The terminal plays no part in what an item does.
pub put_word-with_line :
    (u v : Uart) (w : ℕ) (pending' : List ℕ) (reads' : List Event)
    → put_word u w ≡ done v
    → (put_word (with_line u pending' reads') w ≡ done (with_line v pending' reads'))
      × (v.line ≡ u.line)
unfolding stored
put_word-with_line u v w pending' reads' e =
    let (buf, allowed, written, same) = put_word_done u v w e in
    rw same (put_word_of (with_line u pending' reads') w buf allowed written, refl)
