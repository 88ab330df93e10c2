-- ===== src/Uart/Serial/Laws.antt =====
-- Without a timeout, `read_blocking` and `write_blocking` move exactly the bytes asked for, in
-- order, however the terminal cuts them up.
use mathlib.Core.List.{append-nil, append_assoc}
use demo_testbench.Base.{
  take_split, drop_split, ℕ, zero, suc, ◌+◌, ◌-◌, ◌≤◌, ◌<◌, ◌==◌, List, [], ◌∷◌, ◌++◌,
}
use demo_testbench.Base.{
  length, take, drop, length-take, length-drop, take_all, ap₂, arith, ◌≡◌, refl, ◌∙◌, ap, min,
}
use demo_testbench.Base.{done, ok, Bool-cases, inl, inr, false, take-append-drop}
use demo_testbench.Uart.Serial.{Timeval, give, again, broken, Event, Line, expired}
use demo_testbench.Uart.Serial.{read_loop, read_blocking, write_loop, write_blocking}

-- Before any error, at least `n` of the answers to come move a byte.
abbrev pub IsReady : ℕ → List Event → Type 0
IsReady zero es = Unit
IsReady (suc n) [] = ⊥
IsReady (suc n) (give zero now ∷ es) = IsReady (suc n) es
IsReady (suc n) (give (suc k) now ∷ es) = IsReady n es
IsReady (suc n) (again now ∷ es) = IsReady (suc n) es
IsReady (suc n) (broken ∷ es) = ⊥

pub IsReady-le : (n m : ℕ) (es : List Event) → m ≤ n → IsReady n es → IsReady m es
IsReady-le n zero es h r = tt
IsReady-le zero (suc m) es h r = absurd (omega arith)
IsReady-le (suc n) (suc m) [] h r = absurd r
IsReady-le (suc n) (suc m) (give zero now ∷ es) h r = IsReady-le (suc n) (suc m) es h r
IsReady-le (suc n) (suc m) (give (suc k) now ∷ es) h r = IsReady-le n m es (omega arith) r
IsReady-le (suc n) (suc m) (again now ∷ es) h r = IsReady-le (suc n) (suc m) es h r
IsReady-le (suc n) (suc m) (broken ∷ es) h r = absurd r

-- With `left` bytes pending and enough answers ready the loop gives exactly those bytes, and
-- leaves `more` answers ready.
read_loop-IsReady :
    (start : Timeval) (es : List Event) (need left more : ℕ) (pending got : List ℕ)
    → 0 < left
    → left ≤ length pending
    → left + more ≤ need
    → IsReady need es
    → (es' : List Event) × (read_loop start 0 es pending left got
        ≡ done (ok, got ++ take left pending, drop left pending, es'))
      × IsReady more es'
unfolding read_loop expired
read_loop-IsReady start es zero left more pending got pos h n r = absurd (omega arith)
read_loop-IsReady start [] (suc need) left more pending got pos h n r = absurd r
read_loop-IsReady start (broken ∷ es) (suc need) left more pending got pos h n r = absurd r
read_loop-IsReady start (again now ∷ es) (suc need) left more pending got pos h n r =
    let same : left - 0 ≡ left = omega arith in
    let on : (left == 0) ≡ false = ground arith in
    rw (same, append-nil, on)
      (read_loop-IsReady start es (suc need) left more pending got pos h n r)
read_loop-IsReady start (give zero now ∷ es) (suc need) left more pending got pos h n r =
    let none_given : min 0 left ≡ 0 = omega arith in
    let same : left - 0 ≡ left = omega arith in
    let on : (left == 0) ≡ false = ground arith in
    rw (none_given, same, append-nil, on)
      (read_loop-IsReady start es (suc need) left more pending got pos h n r)
read_loop-IsReady start (give (suc k) now ∷ es) (suc need) left more pending got pos h n r =
    let j = min (suc k) left in
    let len : length (take j pending) ≡ j = omega (arith, length-take j pending) in
    rw len (elim (Bool-cases (left - j == 0)) [
      | inl stop ↦
          let all : j ≡ left = ground (arith, stop) in
          rw (stop, all) (es, refl, IsReady-le need more es (omega arith) r)
      | inr go ↦
          let (es', e, r') =
            read_loop-IsReady start es need (left - j) more (drop j pending) (got ++ take j pending)
              (ground (arith, go)) (omega (arith, length-drop j pending)) (omega arith) r in
          rw go (
            es',
            e
                ∙ ap₂ (λ t u. done (ok, t, u, es')) (take_split j left pending got (omega arith))
                    (drop_split j left pending (omega arith)),
            r',
          )
    ])

-- If the bytes asked for are pending and enough answers move a byte before any error, a blocking
-- read without a timeout ends, gives exactly those bytes in order, and takes no more.
pub read_blocking_lem :
    (line : Line) (start : Timeval) (n more : ℕ)
    → 0 < n
    → n ≤ length line.pending
    → IsReady (n + more) line.reads
    → (reads' : List Event) × (read_blocking line start n 0
        ≡ done (
          ok,
          take n line.pending,
          record line { pending = drop n line.pending; reads = reads' },
        ))
      × IsReady more reads'
unfolding read_blocking
read_blocking_lem line start n more pos h r =
    let (es', e, r') =
      read_loop-IsReady start line.reads (n + more) n more line.pending [] pos h (omega arith) r in
    (es', rw e refl, r')

write_loop-IsReady :
    (start : Timeval) (es : List Event) (need more : ℕ) (sent left : List ℕ)
    → 0 < length left
    → length left + more ≤ need
    → IsReady need es
    → (es' : List Event) × (write_loop start 0 es sent left ≡ done (ok, sent ++ left, es'))
      × IsReady more es'
unfolding write_loop expired
write_loop-IsReady start es zero more sent left pos n r = absurd (omega arith)
write_loop-IsReady start [] (suc need) more sent left pos n r = absurd r
write_loop-IsReady start (broken ∷ es) (suc need) more sent left pos n r = absurd r
write_loop-IsReady start (again now ∷ es) (suc need) more sent left pos n r =
    let on : (length left == 0) ≡ false = ground arith in
    rw (append-nil, on) (write_loop-IsReady start es (suc need) more sent left pos n r)
write_loop-IsReady start (give zero now ∷ es) (suc need) more sent left pos n r =
    let none_given : min 0 (length left) ≡ 0 = omega arith in
    let on : (length left == 0) ≡ false = ground arith in
    rw (none_given, append-nil, on) (write_loop-IsReady start es (suc need) more sent left pos n r)
write_loop-IsReady start (give (suc k) now ∷ es) (suc need) more sent left pos n r =
    let j = min (suc k) (length left) in
    elim (Bool-cases (length (drop j left) == 0)) [
      | inl stop ↦
          let all : length left ≤ j = ground (arith, stop, length-drop j left) in
          rw (stop, take_all j left all) (es, refl, IsReady-le need more es (omega arith) r)
      | inr go ↦
          let (es', e, r') =
            write_loop-IsReady start es need more (sent ++ take j left) (drop j left)
              (ground (arith, go)) (omega (arith, length-drop j left)) r in
          rw go (
            es',
            e
                ∙ ap (λ t. done (ok, t, es'))
                    (append_assoc sent (take j left) (drop j left)
                      ∙ ap (λ t. sent ++ t) (take-append-drop j left)),
            r',
          )
    ]

-- If enough answers move a byte before any error, a blocking write without a timeout ends and has
-- sent exactly its bytes, in order.
pub write_blocking_lem :
    (line : Line) (start : Timeval) (xs : List ℕ) (more : ℕ)
    → 0 < length xs
    → IsReady (length xs + more) line.writes
    → (writes' : List Event) × (write_blocking line start xs 0
        ≡ done (ok, record line { sent = line.sent ++ xs; writes = writes' }))
      × IsReady more writes'
unfolding write_blocking
write_blocking_lem line start xs more pos r =
    let (es', e, r') =
      write_loop-IsReady start line.writes (length xs + more) more line.sent xs pos (omega arith)
        r in
    (es', rw e refl, r')
