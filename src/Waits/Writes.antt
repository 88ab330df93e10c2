-- ===== src/Waits/Writes.antt =====
-- What a blocking write comes to.
use mathlib.Core.List.{append_assoc}
use demo_testbench.Base.{
  ℕ, suc, ◌+◌, ◌-◌, ◌≤◌, ◌<◌, ◌%◌, ◌^◌, ◌==◌, ltb, if◌then◌else◌, List, [], ◌∷◌, ◌++◌, length, take,
  drop, min,
}
use demo_testbench.Base.{
  done, hang, Status, ◌≡◌, refl, sym, ap, ◌∙◌, arith, Bool-cases, inl, inr, ◌⊎◌, true, false,
  take_all, take-append-drop, length-append, length-drop, length-take, drop_left, drop-add,
}
use demo_testbench.Cbuf
use demo_testbench.Cbuf.{Cbuf, fill_level, free_level}
use demo_testbench.Cbuf.Valid.{IsValid, free_level_lem}
use demo_testbench.Cbuf.Contents.{contents, length-contents}
use demo_testbench.Cbuf.Fifo.{get, put, discard_refines, write_refines}
use demo_testbench.Waits.{write_some, write_all}

some_from :
    (b : Cbuf) (xs : List ℕ) (n : ℕ) (s : Status) (b' : Cbuf)
    → (if ltb (free_level b % 2 ^ 32) (length xs) then free_level b % 2 ^ 32 else length xs) ≡ n
    → Cbuf.write b xs n ≡ done (s, b')
    → write_some b xs ≡ done (n, b')
unfolding write_some
some_from b xs n s b' e w = rw (e, w) refl

-- A write that does not block puts in as many bytes as there is room for.
pub write_some_lem :
    (b : Cbuf) (xs : List ℕ)
    → IsValid b
    → b.size < 2 ^ 31
    → let n = min (b.size - length (contents b)) (length xs) in
      (b' : Cbuf) × (write_some b xs ≡ done (n, b'))
      × (contents b' ≡ contents b ++ take n xs)
      × IsValid b'
      × (b'.size ≡ b.size)
unfolding put
write_some_lem b xs v small =
    let q = contents b in
    let n = min (b.size - length q) (length xs) in
    let level : free_level b % 2 ^ 32 ≡ b.size - length q =
      omega (arith, free_level_lem v, length-contents b) in
    let least : (if ltb (free_level b % 2 ^ 32) (length xs)
          then free_level b % 2 ^ 32
          else length xs)
        ≡ n =
      rw level (ground arith) in
    let len : length (take n xs) ≡ n = omega (arith, length-take n xs) in
    let fits : ltb b.size (length q + length (take n xs)) ≡ false =
      ground (arith, len, v.level_in, length-contents b) in
    let (b', writes, holds, valid, same) = write_refines xs n v (omega arith) in
    (b', some_from b xs n _ b' least writes, rw fits at holds, valid, same)

-- Taking bytes from a ring takes some number of the oldest.
taken :
    (b : Cbuf) (k : ℕ)
    → IsValid b
    → let b' = (Cbuf.discard b k).1 in
      IsValid b'
      × (b'.size ≡ b.size)
      × ((g : ℕ) × (g ≤ length (contents b))
          × (contents b' ≡ drop g (contents b))
          × (k ≤ length (contents b) → g ≡ k))
unfolding get
taken b k v =
    let (s, holds, valid, same) = discard_refines k v in
    elim (Bool-cases (ltb (length (contents b)) k)) [
      | inl few ↦
          (valid, same, (0, omega arith, rw few at holds, λ h. absurd (ground (arith, few))))
      | inr enough ↦ (valid, same, (k, ground (arith, enough), rw enough at holds, λ h. refl))
    ]

regrouped :
    (q xs : List ℕ) (n k g : ℕ)
    → k ≤ length (q ++ take n xs)
    → drop g (drop k (q ++ take n xs) ++ drop n xs) ≡ drop (k + g) (q ++ xs)
regrouped q xs n k g h =
    let whole : (q ++ take n xs) ++ drop n xs ≡ q ++ xs =
      append_assoc q (take n xs) (drop n xs) ∙ ap (λ l. q ++ l) (take-append-drop n xs) in
    ap (λ l. drop g l) (sym (drop_left k (q ++ take n xs) (drop n xs) h) ∙ ap (λ l. drop k l) whole)
    ∙ sym (drop-add k g (q ++ xs))

-- A blocking write leaves no object: it goes on for ever, or all its bytes have gone into the ring,
-- in order, behind those that were there, and the thread has taken some of the oldest.
pub write_all-Sent :
    (ks : List ℕ) (b : Cbuf) (xs : List ℕ)
    → IsValid b
    → b.size < 2 ^ 31
    → (write_all ks b xs ≡ hang)
      ⊎ ((b' : Cbuf) × (ks' : List ℕ) × (write_all ks b xs ≡ done (b', ks'))
          × IsValid b'
          × (b'.size ≡ b.size)
          × ((gone : ℕ) × (contents b' ≡ drop gone (contents b ++ xs))))
unfolding write_all
write_all-Sent [] b xs v small =
    let n = min (b.size - length (contents b)) (length xs) in
    let (b1, writes, holds, v1, same) = write_some_lem b xs v small in
    elim (Bool-cases (n == length xs)) [
      | inl all ↦
          let whole : take n xs ≡ xs = take_all n xs (ground (arith, all)) in
          inr
            (b1, [], rw (writes, all) refl, v1, same, (0, holds ∙ ap (λ l. contents b ++ l) whole))
      | inr part ↦ inl (rw (writes, part) refl)
    ]
write_all-Sent (k ∷ ks) b xs v small =
    let n = min (b.size - length (contents b)) (length xs) in
    let (b1, writes, holds, v1, same) = write_some_lem b xs v small in
    elim (Bool-cases (n == length xs)) [
      | inl all ↦
          let whole : take n xs ≡ xs = take_all n xs (ground (arith, all)) in
          inr (
            b1,
            k ∷ ks,
            rw (writes, all) refl,
            v1,
            same,
            (0, holds ∙ ap (λ l. contents b ++ l) whole),
          )
      | inr part ↦
          let (v2, same2, (g, g_le, left, _)) = taken b1 k v1 in
          let b2 = (Cbuf.discard b1 k).1 in
          rw (writes, part)
            (elim (write_all-Sent ks b2 (drop n xs) v2 (omega (arith, same, same2))) [
              | inl waits ↦ inl waits
              | inr (b', ks', ends, v', same', (gone, holds')) ↦ inr (
                b',
                ks',
                ends,
                v',
                same' ∙ (same2 ∙ same),
                (
                  g + gone,
                  holds'
                      ∙ (ap (λ l. drop gone (l ++ drop n xs)) (left ∙ ap (λ l. drop g l) holds)
                          ∙ regrouped (contents b) xs n g gone
                              (omega (arith, g_le, ap (λ l. length l) holds))),
                ),
              )
            ])
    ]

-- The thread takes some bytes in every round, and no more than a ring of `cap` holds.
pub TakeBytes : ℕ → List ℕ → Type 0
TakeBytes cap [] = Unit
TakeBytes cap (k ∷ ks) = (0 < k) × (k ≤ cap) × TakeBytes cap ks

rounds_left :
    (size held len k rest : ℕ)
    → let n = min (size - held) len in
      (n == len) ≡ false
      → held ≤ size
      → held + len ≤ size + suc rest
      → 0 < k
      → k ≤ size
      → (size - k) + (len - n) ≤ size + rest
rounds_left size held len k rest part h1 h2 h3 h4 = ground arith

-- With that in as many rounds as there are bytes for which there is no room yet, the write ends.
pub write_all-TakeBytes :
    (ks : List ℕ) (b : Cbuf) (xs : List ℕ)
    → IsValid b
    → b.size < 2 ^ 31
    → TakeBytes b.size ks
    → length (contents b) + length xs ≤ b.size + length ks
    → (b' : Cbuf) × (ks' : List ℕ) × (write_all ks b xs ≡ done (b', ks'))
unfolding write_all TakeBytes
write_all-TakeBytes [] b xs v small takes enough =
    let n = min (b.size - length (contents b)) (length xs) in
    let (b1, writes, holds, v1, same) = write_some_lem b xs v small in
    let all : (n == length xs) ≡ true = ground arith in (b1, [], rw (writes, all) refl)
write_all-TakeBytes (k ∷ ks) b xs v small takes enough =
    let n = min (b.size - length (contents b)) (length xs) in
    let (b1, writes, holds, v1, same) = write_some_lem b xs v small in
    elim (Bool-cases (n == length xs)) [
      | inl all ↦ (b1, k ∷ ks, rw (writes, all) refl)
      | inr part ↦
          let (v2, same2, (g, g_le, left, exact)) = taken b1 k v1 in
          let b2 = (Cbuf.discard b1 k).1 in
          let full : length (contents b1) ≡ b.size = ground (
            arith,
            ap (λ l. length l) holds,
            length-append (contents b) (take n xs),
            length-take n xs,
            part,
            length-contents b,
            v.level_in,
          ) in
          let fewer : length (contents b2) ≡ b.size - k = omega (
            arith,
            ap (λ l. length l) left,
            length-drop g (contents b1),
            exact (omega (arith, takes.1, full)),
            full,
          ) in
          let later =
            rounds_left b.size (length (contents b)) (length xs) k (length ks) part
              (omega (arith, v.level_in, length-contents b)) (omega (arith, enough)) takes.0
              takes.1 in
          let takes' : TakeBytes b2.size ks = rw (same2 ∙ same) takes.2 in
          let (b', ks', ends) =
            write_all-TakeBytes ks b2 (drop n xs) v2 (omega (arith, same, same2)) takes'
              (omega (arith, fewer, length-drop n xs, same, same2, later)) in
          (b', ks', rw (writes, part) ends)
    ]
