-- ===== src/Waits/Laws.antt =====
-- What the waits of a blocking call come to.
use demo_testbench.Base.{ℕ, ◌+◌, ◌≤◌, ◌<◌, ltb, List, [], ◌∷◌, ◌++◌, length, take}
use demo_testbench.Base.{
  done, hang, Status, ◌≡◌, refl, sym, ap, ap₂, subst, ◌∙◌, arith, Bool-cases, inl, inr, ◌⊎◌, false,
  true, take_all, length-append,
}
use demo_testbench.Cbuf
use demo_testbench.Cbuf.{Cbuf, fill_level, free_level}
use demo_testbench.Cbuf.Valid.{IsValid, fill_level_lem}
use demo_testbench.Cbuf.Contents.{contents, length-contents}
use demo_testbench.Cbuf.Fifo.{put, write_refines}
use demo_testbench.Waits.{Wake, changed, gave_up, wait_filled}

-- The bytes that a wait brings.
abbrev pub bytes_of : Wake → List ℕ
bytes_of (changed xs) = xs
bytes_of (gave_up xs) = xs

-- What a queue of at most `cap` bytes holds after some waits: the bytes of each go behind the others,
-- all of them or, where there is no room, none.
unfoldable pub arrive : ℕ → List ℕ → List Wake → List ℕ
arrive cap q [] = q
arrive cap q (w ∷ ws) = arrive cap (put cap q (bytes_of w)).1 ws

-- The waits for `size` bytes of a queue of at most `cap` that are made: each with fewer bytes there,
-- up to the first that gives up, or until the bytes are there.
unfoldable pub Waited : ℕ → ℕ → List ℕ → List Wake → Type 0
Waited size cap q [] = size ≤ length q
Waited size cap q (changed xs ∷ ws) = (length q < size) × Waited size cap (put cap q xs).1 ws
Waited size cap q (gave_up xs ∷ []) = length q < size
Waited size cap q (gave_up xs ∷ (w ∷ ws)) = ⊥

-- The ring after the waits `used`, which are those for `size` bytes.
pub record Grown (b b' : Cbuf) (size : ℕ) (used : List Wake) : Type 0 where
  pub holds : contents b' ≡ arrive b.size (contents b) used
  pub ended : Waited size b.size (contents b) used
  pub valid : IsValid b'
  pub same_size : b'.size ≡ b.size

same_ring : (b : Cbuf) (size : ℕ) → IsValid b → ltb (fill_level b) size ≡ false → Grown b b size []
unfolding arrive Waited
same_ring b size v there = record {
  holds = refl;
  ended = ground (arith, there, fill_level_lem v, length-contents b);
  valid = v;
  same_size = refl;
}

too_few :
    (b : Cbuf) (size : ℕ) → IsValid b → ltb (fill_level b) size ≡ true → length (contents b) < size
too_few b size v few = ground (arith, few, fill_level_lem v, length-contents b)

-- Bytes are put into a ring as into a queue.
written :
    (b : Cbuf) (xs : List ℕ)
    → IsValid b
    → (s : Status) × (b' : Cbuf) × (Cbuf.write b xs (length xs) ≡ done (s, b'))
      × (contents b' ≡ (put b.size (contents b) xs).1)
      × IsValid b'
      × (b'.size ≡ b.size)
written b xs v =
    let (b', writes, holds, valid, same) = write_refines xs (length xs) v (omega arith) in
    let all : take (length xs) xs ≡ xs = take_all (length xs) xs (omega arith) in
    (_, b', rw all at writes, rw all at holds, valid, same)

later :
    (b b1 b' : Cbuf) (xs : List ℕ) (size : ℕ) (used : List Wake)
    → length (contents b) < size
    → contents b1 ≡ (put b.size (contents b) xs).1
    → b1.size ≡ b.size
    → Grown b1 b' size used
    → Grown b b' size (changed xs ∷ used)
unfolding arrive Waited
later b b1 b' xs size used few holds same g = record {
  holds = g.holds ∙ ap₂ (λ cap q. arrive cap q used) same holds;
  ended = (
    few,
    subst (λ cap. Waited size cap (put b.size (contents b) xs).1 used) same
        (subst (λ q. Waited size b1.size q used) holds g.ended),
  );
  valid = g.valid;
  same_size = g.same_size ∙ same;
}

-- Waiting for `size` bytes leaves no object: it goes on for ever, or ends with the ring that the waits
-- it has used come to.
pub wait_filled-Grown :
    (size : ℕ) (ws : List Wake) (b : Cbuf)
    → IsValid b
    → (wait_filled size ws b ≡ hang)
      ⊎ ((b' : Cbuf) × (used ws' : List Wake) × (ws ≡ used ++ ws')
          × (wait_filled size ws b ≡ done (b', ws'))
          × Grown b b' size used)
unfolding wait_filled arrive Waited
wait_filled-Grown size [] b v = elim (Bool-cases (ltb (fill_level b) size)) [
  | inl few ↦ inl (rw few refl)
  | inr enough ↦ inr (b, [], [], refl, rw enough refl, same_ring b size v enough)
]
wait_filled-Grown size (changed xs ∷ ws) b v = elim (Bool-cases (ltb (fill_level b) size)) [
  | inl few ↦
      let (s, b1, writes, holds, v1, same) = written b xs v in
      rw (few, writes)
        (elim (wait_filled-Grown size ws b1 v1) [
          | inl waits ↦ inl waits
          | inr (b', used, ws', parts, ends, g) ↦ inr (
            b',
            changed xs ∷ used,
            ws',
            ap (λ l. changed xs ∷ l) parts,
            ends,
            later b b1 b' xs size used (too_few b size v few) holds same g,
          )
        ])
  | inr enough ↦ inr (b, [], changed xs ∷ ws, refl, rw enough refl, same_ring b size v enough)
]
wait_filled-Grown size (gave_up xs ∷ ws) b v = elim (Bool-cases (ltb (fill_level b) size)) [
  | inl few ↦
      let (s, b1, writes, holds, v1, same) = written b xs v in
      inr (
        b1,
        gave_up xs ∷ [],
        ws,
        refl,
        rw (few, writes) refl,
        record { holds = holds; ended = too_few b size v few; valid = v1; same_size = same },
      )
  | inr enough ↦ inr (b, [], gave_up xs ∷ ws, refl, rw enough refl, same_ring b size v enough)
]

-- With `held` bytes in a ring of `cap`, each wait that is made ends with a change, and brings no more
-- than there is room for at that time, until the ring holds `size`.
unfoldable pub BringBytes : ℕ → ℕ → ℕ → List Wake → Type 0
BringBytes size cap held [] = size ≤ held
BringBytes size cap held (changed xs ∷ ws) =
    (size ≤ held) ⊎ ((held + length xs ≤ cap) × BringBytes size cap (held + length xs) ws)
BringBytes size cap held (gave_up xs ∷ ws) = size ≤ held

-- Then the waiting ends, with all of them there.
pub wait_filled-BringBytes :
    (size : ℕ) (ws : List Wake) (b : Cbuf)
    → IsValid b
    → BringBytes size b.size (length (contents b)) ws
    → (b' : Cbuf) × (ws' : List Wake) × (wait_filled size ws b ≡ done (b', ws'))
      × IsValid b'
      × (b'.size ≡ b.size)
      × (size ≤ length (contents b'))
unfolding wait_filled BringBytes put
wait_filled-BringBytes size [] b v brings =
    let there : ltb (fill_level b) size ≡ false =
      ground (arith, fill_level_lem v, length-contents b) in
    (b, [], rw there refl, v, refl, brings)
wait_filled-BringBytes size (gave_up xs ∷ ws) b v brings =
    let there : ltb (fill_level b) size ≡ false =
      ground (arith, fill_level_lem v, length-contents b) in
    (b, gave_up xs ∷ ws, rw there refl, v, refl, brings)
wait_filled-BringBytes size (changed xs ∷ ws) b v (inl enough) =
    let there : ltb (fill_level b) size ≡ false =
      ground (arith, fill_level_lem v, length-contents b) in
    (b, changed xs ∷ ws, rw there refl, v, refl, enough)
wait_filled-BringBytes size (changed xs ∷ ws) b v (inr (fits, rest)) =
    elim (Bool-cases (ltb (fill_level b) size)) [
      | inl few ↦
          let (s, b1, writes, holds, v1, same) = written b xs v in
          let room : ltb b.size (length (contents b) + length xs) ≡ false = ground arith in
          let all : contents b1 ≡ contents b ++ xs = holds ∙ rw room refl in
          let long : length (contents b1) ≡ length (contents b) + length xs =
            ap (λ l. length l) all ∙ length-append (contents b) xs in
          let rest' : BringBytes size b1.size (length (contents b1)) ws =
            subst (λ cap. BringBytes size cap (length (contents b1)) ws) (sym same)
              (subst (λ held. BringBytes size b.size held ws) (sym long) rest) in
          let (b', ws', ends, v', same', full) = wait_filled-BringBytes size ws b1 v1 rest' in
          (b', ws', rw (few, writes) ends, v', same' ∙ same, full)
      | inr there ↦ (
        b,
        changed xs ∷ ws,
        rw there refl,
        v,
        refl,
        ground (arith, there, fill_level_lem v, length-contents b),
      )
    ]
