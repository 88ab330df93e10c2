-- ===== src/Tcp/Blocking/Ready.antt =====
-- On a socket that stays ready, the blocking calls move all bytes.
use demo_testbench.Base.{
  take_split, drop_split, ℕ, zero, suc, ◌-◌, ◌^◌, ◌≤◌, ◌<◌, ◌==◌, ltb, Bool, true, false,
}
use demo_testbench.Base.{
  List, [], ◌∷◌, ◌++◌, length, take, drop, length-take, length-drop, min, arith, ◌≡◌, refl, ap₂,
  ◌∙◌,
}
use demo_testbench.Base.{Bool-cases, inl, inr, done, ok}
use demo_testbench.Tcp.{Answer, given, would_block, broken, moved, is_broken}
use demo_testbench.Tcp.Wait.{Poll, socket_ready, wait_for-ready}
use demo_testbench.Tcp.Blocking.{moved_so_far, after_wait, transfer}

-- Before any error, at least `n` of the answers move a byte.
abbrev pub AreReady : ℕ → List Answer → Type 0
AreReady zero as' = Unit
AreReady (suc n) [] = ⊥
AreReady (suc n) (given zero ∷ as') = AreReady (suc n) as'
AreReady (suc n) (given (suc k) ∷ as') = AreReady n as'
AreReady (suc n) (would_block ∷ as') = AreReady (suc n) as'
AreReady (suc n) (broken ∷ as') = ⊥

-- A wait for each answer, which ends in time with a socket that is ready.
abbrev pub ArePrompt : ℕ → List Answer → List ℕ → List Poll → Type 0
ArePrompt timeout [] times ps = Unit
ArePrompt timeout (a ∷ as') [] ps = ⊥
ArePrompt timeout (a ∷ as') (t ∷ times) [] = ⊥
ArePrompt timeout (a ∷ as') (t ∷ times) (p ∷ ps) =
    (t < timeout)
    × (p ≡ record { spent = t; events = socket_ready true true })
    × ArePrompt timeout as' times ps

module _ (reading : Bool) (timeout : ℕ) (some_time : 0 < timeout) (small : timeout < 2 ^ 31) where
  round_more :
      (a : Answer) (as' : List Answer) (t : ℕ) (ps : List Poll) (source : List ℕ) (left : ℕ)
      (got : List ℕ)
      → is_broken a ≡ false
      → moved a left < left
      → left ≤ length source
      → t < timeout
      → transfer reading timeout
          (a ∷ as')
          (record { spent = t; events = socket_ready true true } ∷ ps)
          source
          left
          got
        ≡ transfer reading timeout as' ps
            (drop (moved a left) source)
            (left - moved a left)
            (got ++ take (moved a left) source)
  unfolding transfer after_wait
  round_more a as' t ps source left got works less room early =
      let len : length (take (moved a left) source) ≡ moved a left =
        omega (arith, length-take (moved a left) source) in
      let more : (moved a left == left) ≡ false = ground arith in
      let waits : ltb 0 timeout ≡ true = ground arith in
      rw (works, len, more, waits, wait_for-ready reading timeout t ps small early) refl

  round_last :
      (a : Answer) (as' : List Answer) (ps : List Poll) (source : List ℕ) (left : ℕ) (got : List ℕ)
      → is_broken a ≡ false
      → moved a left ≡ left
      → left ≤ length source
      → transfer reading timeout (a ∷ as') ps source left got
        ≡ done (moved_so_far ok (got ++ take left source) (drop left source) as' ps)
  unfolding transfer
  round_last a as' ps source left got works all room =
      let len : length (take left source) ≡ left = omega (arith, length-take left source) in
      let same : (left == left) ≡ true = ground arith in rw (works, all, len, same) refl

  -- A round that leaves some bytes to go, and the rounds after it.
  resume :
      (a : Answer) (as' : List Answer) (t : ℕ) (p : Poll) (ps : List Poll) (source : List ℕ)
      (left : ℕ) (got : List ℕ) (as'' : List Answer) (ps' : List Poll)
      → is_broken a ≡ false
      → moved a left < left
      → left ≤ length source
      → t < timeout
      → p ≡ record { spent = t; events = socket_ready true true }
      → transfer reading timeout as' ps
          (drop (moved a left) source)
          (left - moved a left)
          (got ++ take (moved a left) source)
        ≡ done (
            moved_so_far ok
              ((got ++ take (moved a left) source)
                ++ take (left - moved a left) (drop (moved a left) source))
              (drop (left - moved a left) (drop (moved a left) source))
              as''
              ps')
      → transfer reading timeout (a ∷ as') (p ∷ ps) source left got
        ≡ done (moved_so_far ok (got ++ take left source) (drop left source) as'' ps')
  resume a as' t p ps source left got as'' ps' works less room early same e =
      rw same (round_more a as' t ps source left got works less room early)
      ∙ (e
          ∙ ap₂ (λ l r. done (moved_so_far ok l r as'' ps'))
              (take_split (moved a left) left source got (omega arith))
              (drop_split (moved a left) left source (omega arith)))

  -- With `left` bytes there, enough answers, and waits that end in time, all of them are moved.
  pub transfer-AreReady :
      (as' : List Answer) (times : List ℕ) (ps : List Poll) (need left : ℕ) (source got : List ℕ)
      → 0 < left
      → left ≤ length source
      → left ≤ need
      → AreReady need as'
      → ArePrompt timeout as' times ps
      → (as'' : List Answer) × (ps' : List Poll) × (transfer reading timeout as' ps source left got
          ≡ done (moved_so_far ok (got ++ take left source) (drop left source) as'' ps'))
  transfer-AreReady as' times ps zero left source got pos room n r prompt = absurd (omega arith)
  transfer-AreReady [] times ps (suc need) left source got pos room n r prompt = absurd r
  transfer-AreReady (a ∷ as') [] ps (suc need) left source got pos room n r prompt = absurd prompt
  transfer-AreReady (a ∷ as') (t ∷ times) [] (suc need) left source got pos room n r prompt =
      absurd prompt
  transfer-AreReady (broken ∷ as') (t ∷ times) (p ∷ ps) (suc need) left source got pos room n r
        (early, same, prompt) =
      absurd r
  transfer-AreReady (would_block ∷ as') (t ∷ times) (p ∷ ps) (suc need) left source got pos room n r
        (early, same, prompt) =
      let j = moved would_block left in
      let (as'', ps', e) =
        transfer-AreReady as' times ps (suc need) (left - j) (drop j source) (got ++ take j source)
          (omega arith) (omega (arith, length-drop j source)) (omega arith) r prompt in
      (
        as'',
        ps',
        resume would_block as' t p ps source left got as'' ps' refl (omega arith) room early same e,
      )
  transfer-AreReady (given zero ∷ as') (t ∷ times) (p ∷ ps) (suc need) left source got pos room n r
        (early, same, prompt) =
      let j = moved (given zero) left in
      let (as'', ps', e) =
        transfer-AreReady as' times ps (suc need) (left - j) (drop j source) (got ++ take j source)
          (omega arith) (omega (arith, length-drop j source)) (omega arith) r prompt in
      (
        as'',
        ps',
        resume (given zero) as' t p ps source left got as'' ps' refl (omega arith) room early same
            e,
      )
  transfer-AreReady (given (suc k) ∷ as') (t ∷ times) (p ∷ ps) (suc need) left source got pos room n
        r (early, same, prompt) =
      elim (Bool-cases (min (suc k) left == left)) [
        | inl all ↦ (
          as',
          p ∷ ps,
          round_last (given (suc k)) as' (p ∷ ps) source left got refl (ground arith) room,
        )
        | inr some_left ↦
            let j = min (suc k) left in
            let (as'', ps', e) =
              transfer-AreReady as' times ps need (left - j) (drop j source) (got ++ take j source)
                (ground arith) (omega (arith, length-drop j source)) (omega arith) r prompt in
            (
              as'',
              ps',
              resume (given (suc k)) as' t p ps source left got as'' ps' refl (ground arith) room
                  early same e,
            )
      ]
