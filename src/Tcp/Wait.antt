-- ===== src/Tcp/Wait.antt =====
-- Waiting for a socket in the blocking calls of the TCP backend.
use demo_testbench.Base.{
  Safely, Bool-cases, inl, inr, ◌≡◌, refl, arith, ◌<◌, ℕ, ◌^◌, ltb, leb, if◌then◌else◌, Bool, true,
  false, ◌||◌, not, List, [], ◌∷◌, Outcome, done, hang,
}

-- What `epoll_wait` answers: an error, no event in time, a connection that broke, or that the
-- socket is readable or writable.
pub data Events : Type 0 where
  wait_failed timed_out hung_up : Events
  socket_ready : Bool → Bool → Events

-- The milliseconds since the start of the call, and the answer of `epoll_wait` if it is asked.
pub record Poll : Type 0 where
  pub spent : ℕ
  pub events : Events

-- How a wait ends: with a socket that is ready, with what there is, or with an error.
pub data WaitEnd : Type 0 where
  ready over broken_wait : WaitEnd

-- `tspent >= (int)timeout`
abbrev pub is_late : ℕ → ℕ → Bool
is_late timeout spent = not (ltb timeout (2 ^ 31)) || leb timeout spent

-- What the events mean, for a reader or for a writer.
pub on_events :
    Bool → Events → List Poll → Outcome (WaitEnd × List Poll) → Outcome (WaitEnd × List Poll)
on_events reading wait_failed ps rest = done (broken_wait, ps)
on_events reading timed_out ps rest = done (over, ps)
on_events reading hung_up ps rest = done (over, ps)
on_events true (socket_ready readable writable) ps rest =
    if readable then done (ready, ps) else rest
on_events false (socket_ready readable writable) ps rest =
    if writable then done (ready, ps) else rest

-- The inner loop of the blocking calls.
pub wait_for : Bool → ℕ → List Poll → Outcome (WaitEnd × List Poll)
unfolding on_events
wait_for reading timeout [] = hang
wait_for reading timeout (p ∷ ps) =
    let rest = wait_for reading timeout ps in
    if is_late timeout p.spent then done (over, ps) else on_events reading p.events ps rest

on_events-Safely :
    (reading : Bool) (e : Events) (ps : List Poll) (rest : Outcome (WaitEnd × List Poll))
    → Safely rest (λ w. Unit)
    → Safely (on_events reading e ps rest) (λ w. Unit)
unfolding on_events
on_events-Safely reading wait_failed ps rest h = tt
on_events-Safely reading timed_out ps rest h = tt
on_events-Safely reading hung_up ps rest h = tt
on_events-Safely true (socket_ready true writable) ps rest h = tt
on_events-Safely true (socket_ready false writable) ps rest h = h
on_events-Safely false (socket_ready readable true) ps rest h = tt
on_events-Safely false (socket_ready readable false) ps rest h = h

-- A wait touches nothing.
pub wait_for-Safely :
    (reading : Bool) (timeout : ℕ) (ps : List Poll)
    → Safely (wait_for reading timeout ps) (λ w. Unit)
unfolding wait_for
wait_for-Safely reading timeout [] = tt
wait_for-Safely reading timeout (p ∷ ps) = elim (Bool-cases (is_late timeout p.spent)) [
  | inl late ↦ rw late tt
  | inr early ↦ rw early (
      on_events-Safely reading p.events ps (wait_for reading timeout ps)
        (wait_for-Safely reading timeout ps))
]

-- An answer in time that the socket is ready ends the wait.
pub wait_for-ready :
    (reading : Bool) (timeout spent : ℕ) (ps : List Poll)
    → timeout < 2 ^ 31
    → spent < timeout
    → wait_for reading timeout (record { spent = spent; events = socket_ready true true } ∷ ps)
      ≡ done (ready, ps)
unfolding wait_for on_events
wait_for-ready true timeout spent ps small early =
    let in_time : is_late timeout spent ≡ false = ground arith in rw in_time refl
wait_for-ready false timeout spent ps small early =
    let in_time : is_late timeout spent ≡ false = ground arith in rw in_time refl
