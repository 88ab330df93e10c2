-- ===== src/Tcp/Blocking/Laws.antt =====
-- The blocking calls lose no byte, and end with all of them where the socket stays ready.
use mathlib.Core.List.{append_assoc}
use demo_testbench.Base.{ℕ, ◌+◌, ◌-◌, ◌≤◌, ◌==◌, ltb, Bool, not, ◌&&◌}
use demo_testbench.Base.{
  List, [], ◌∷◌, ◌++◌, length, take, drop, length-take, length-append, take-append-drop, arith, ◌≡◌,
  refl,
}
use demo_testbench.Base.{ap, ◌∙◌, Bool-cases, inl, inr, Outcome, Status, ok, failed}
use demo_testbench.Base.{Safely, Safely-bind, Safely-le}
use demo_testbench.Tcp.{Answer, given, would_block, broken, moved, is_broken}
use demo_testbench.Tcp.Wait.{Poll, WaitEnd, ready, over, broken_wait, wait_for, wait_for-Safely}
use demo_testbench.Tcp.Blocking.{Moved, moved_so_far, after_wait, transfer}

-- What a transfer comes to: the bytes moved and those left over are those there were, in order, no
-- more than `size` of them, and nothing was moved before that is not in `got`.
pub record Transferred (source got : List ℕ) (left : ℕ) (t : Moved) : Type 0 where
  pub in_order : t.got ++ t.left_over ≡ got ++ source
  pub at_most : length t.got ≤ length got + left

pub moved-le : (a : Answer) (n : ℕ) → moved a n ≤ n
moved-le (given k) n = omega arith
moved-le would_block n = omega arith
moved-le broken n = omega arith

step_in_order :
    (a : Answer) (source got : List ℕ) (left : ℕ)
    → (got ++ take (moved a left) source) ++ drop (moved a left) source ≡ got ++ source
step_in_order a source got left =
    append_assoc got (take (moved a left) source) (drop (moved a left) source)
    ∙ ap (λ l. got ++ l) (take-append-drop (moved a left) source)

-- What a round moves, before those that follow it.
after_round :
    (a : Answer) (source got : List ℕ) (left : ℕ) (t : Moved)
    → Transferred
        (drop (moved a left) source)
        (got ++ take (moved a left) source)
        (left - length (take (moved a left) source))
        t
    → Transferred source got left t
after_round a source got left t h = record {
  in_order = h.in_order ∙ step_in_order a source got left;
  at_most = omega (
    arith,
    h.at_most,
    moved-le a left,
    length-take (moved a left) source,
    length-append got (take (moved a left) source),
  );
}

this_round :
    (a : Answer) (source got : List ℕ) (left : ℕ) (s : Status) (as' : List Answer) (ps : List Poll)
    → Transferred source got left
        (moved_so_far s (got ++ take (moved a left) source) (drop (moved a left) source) as' ps)
this_round a source got left s as' ps =
    after_round a source got left _ (record { in_order = refl; at_most = omega arith })

after_wait-Safely :
    (w : WaitEnd) (ps : List Poll) (go : List Poll → Outcome Moved)
    (end : Status → List Poll → Moved) (Q : Moved → Type 0)
    → ((ps' : List Poll) → Safely (go ps') Q)
    → ((s : Status) (ps' : List Poll) → Q (end s ps'))
    → Safely (after_wait (w, ps) go end) Q
unfolding after_wait
after_wait-Safely ready ps go end Q k l = k ps
after_wait-Safely over ps go end Q k l = l ok ps
after_wait-Safely broken_wait ps go end Q k l = l failed ps

-- No byte is lost, added or moved out of order.
pub transfer-Transferred :
    (reading : Bool) (timeout : ℕ) (as' : List Answer) (ps : List Poll) (source : List ℕ) (left : ℕ)
    (got : List ℕ)
    → Safely (transfer reading timeout as' ps source left got) (Transferred source got left)
unfolding transfer
transfer-Transferred reading timeout [] ps source left got = tt
transfer-Transferred reading timeout (a ∷ as') ps source left got =
    let new = take (moved a left) source in
    let source' = drop (moved a left) source in
    let ih = λ (ps' : List Poll).
      Safely-le (transfer reading timeout as' ps' source' (left - length new) (got ++ new))
        (Transferred source' (got ++ new) (left - length new)) (Transferred source got left)
        (after_round a source got left)
        (transfer-Transferred reading timeout as' ps' source' (left - length new) (got ++ new)) in
    elim (Bool-cases (is_broken a)) [
      | inl broken_pipe ↦ rw broken_pipe (record { in_order = refl; at_most = omega arith })
      | inr works ↦ elim (Bool-cases (not (length new == left) && ltb 0 timeout)) [
        | inl waits ↦
            rw (works, waits)
              (Safely-bind (wait_for reading timeout ps)
                (λ w.
                  after_wait w
                    (λ ps'.
                      transfer reading timeout as' ps' source' (left - length new) (got ++ new))
                    (λ s ps'. moved_so_far s (got ++ new) source' as' ps'))
                (λ w. Unit) (Transferred source got left) (wait_for-Safely reading timeout ps)
                (λ (w, ps') h.
                  after_wait-Safely w ps'
                    (λ ps''.
                      transfer reading timeout as' ps'' source' (left - length new) (got ++ new))
                    (λ s ps''. moved_so_far s (got ++ new) source' as' ps'')
                    (Transferred source got left) ih
                    (λ s ps''. this_round a source got left s as' ps'')))
        | inr goes ↦ elim (Bool-cases (length new == left)) [
          | inl all ↦ rw (works, goes, all) (this_round a source got left ok as' ps)
          | inr some_left ↦ rw (works, goes, some_left) (ih ps)
        ]
      ]
    ]
