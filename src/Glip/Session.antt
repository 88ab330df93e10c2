-- ===== src/Glip/Session.antt =====
-- A context in use: the calls of a client in any order, and what a backend may rely on.
use demo_testbench.Base.{
  Safely, Safely-bind, length, ◌≤◌, ℕ, ◌==◌, ltb, if◌then◌else◌, Bool, true, false, List, [], ◌∷◌,
  some, Bool-cases,
}
use demo_testbench.Base.{
  Outcome, done, fault, abort, hang, ◌>>=◌, Status, ok, failed, efeature, is_ok, ◌≡◌, refl, inl,
  inr,
}
use demo_testbench.Glip.{
  call_through, Entry, Backend, Ctx, call, open_ctx, glip_close, glip_logic_reset,
}
use demo_testbench.Glip.{glip_read, glip_read_b, glip_write, glip_write_b}

-- A call of the client.
pub data Call : Type 0 where
  open_call : ℕ → Call
  close_call reset_call : Call
  read_call write_call : ℕ → ℕ → List ℕ → ℕ → Call
  read_b_call write_b_call : ℕ → ℕ → List ℕ → ℕ → ℕ → Call

-- The caller's array has room for the bytes asked for.
abbrev pub HasRoom : Call → Type 0
HasRoom (read_call channel size xs n) = size ≤ length xs
HasRoom (write_call channel size xs n) = size ≤ length xs
HasRoom (read_b_call channel size xs n t) = size ≤ length xs
HasRoom (write_b_call channel size xs n t) = size ≤ length xs
HasRoom _ = Unit

abbrev pub HaveRoom : List Call → Type 0
HaveRoom [] = Unit
HaveRoom (k ∷ ks) = HasRoom k × HaveRoom ks

module _ {B : Type 0} where
  pub step : Call → Ctx B → Outcome (Ctx B)
  step (open_call n) c = open_ctx c n >>= λ (s, c'). done c'
  step close_call c = glip_close c >>= λ (s, c'). done c'
  step reset_call c = glip_logic_reset c >>= λ (s, c'). done c'
  step (read_call channel size data' n) c =
      glip_read c channel size data' n >>= λ (s, out, k, c'). done c'
  step (write_call channel size data' n) c =
      glip_write c channel size data' n >>= λ (s, k, c'). done c'
  step (read_b_call channel size data' n t) c =
      glip_read_b c channel size data' n t >>= λ (s, out, k, c'). done c'
  step (write_b_call channel size data' n t) c =
      glip_write_b c channel size data' n t >>= λ (s, k, c'). done c'

  pub run : List Call → Ctx B → Outcome (Ctx B)
  run [] c = done c
  run (k ∷ ks) c = step k c >>= λ c'. run ks c'

  -- What a backend promises: opening never leaves an object and, where it succeeds, gives an open
  -- state; a second opening that fails keeps an open one; in an open state, with an array that
  -- has room, the calls that move data leave no object and keep it open; closing leaves no object.
  pub record IsBackend (fns : Backend B) (Opened : B → Type 0) : Type 0 where
    pub opens :
        (os : List Entry) (b : B) (n : ℕ)
        → Safely (fns.open_b os b n) (λ (s, b'). s ≡ ok → Opened b')
    pub stays :
        (os : List Entry) (b : B) (n : ℕ)
        → Opened b
        → Safely (fns.open_b os b n) (λ (s, b'). Opened b')
    pub closes : (b : B) → Safely (fns.close_b b) (λ (s, b'). Unit)
    pub resets : (b : B) → Opened b → Safely (fns.logic_reset b) (λ (s, b'). Opened b')
    pub reads :
        (b : B) (channel size : ℕ) (xs : List ℕ) (n : ℕ)
        → Opened b
        → size ≤ length xs
        → Safely (fns.read b channel size xs n) (λ (s, out, k, b'). Opened b')
    pub writes :
        (b : B) (channel size : ℕ) (xs : List ℕ) (n : ℕ)
        → Opened b
        → size ≤ length xs
        → Safely (fns.write b channel size xs n) (λ (s, k, b'). Opened b')
    pub reads_b :
        (b : B) (channel size : ℕ) (xs : List ℕ) (n t : ℕ)
        → Opened b
        → size ≤ length xs
        → Safely (fns.read_b b channel size xs n t) (λ (s, out, k, b'). Opened b')
    pub writes_b :
        (b : B) (channel size : ℕ) (xs : List ℕ) (n t : ℕ)
        → Opened b
        → size ≤ length xs
        → Safely (fns.write_b b channel size xs n t) (λ (s, k, b'). Opened b')

  -- The invariant of a context: its functions are those of the backend, and while it says that it
  -- is connected the backend is open.
  pub record IsSession (fns : Backend B) (Opened : B → Type 0) (c : Ctx B) : Type 0 where
    pub has_functions : c.backend_functions ≡ some fns
    pub is_open : c.connected ≡ true → Opened c.backend_ctx

  module _ {fns : Backend B} {Opened : B → Type 0} (laws : IsBackend fns Opened) where
    pass :
        {R S : Type 0} (m : Outcome R) (f : R → S) (g : S → Ctx B) (c : Ctx B) (state : R → B)
        → IsSession fns Opened c
        → ((r : R) → g (f r) ≡ record c { backend_ctx = state r })
        → Safely m (λ r. Opened (state r))
        → Safely ((m >>= λ r. done (f r)) >>= λ x. done (g x)) (IsSession fns Opened)
    pass (done r) f g c state v same safe =
        rw (same r) (record { has_functions = v.has_functions; is_open = λ e. safe })
    pass fault f g c state v same safe = safe
    pass abort f g c state v same safe = tt
    pass hang f g c state v same safe = tt

    through :
        {R : Type 0} (c : Ctx B) (f : Backend B → Outcome R)
        → IsSession fns Opened c
        → call c f ≡ f fns
    unfolding call call_through
    through c f v = rw v.has_functions refl

    -- A call that moves data: passed on only while connected, and only for some bytes.
    guarded :
        {R S : Type 0} (c : Ctx B) (flag empty : Bool) (m : Backend B → Outcome R) (f : R → S)
        (g : S → Ctx B) (state : R → B) (nothing refused : S)
        → IsSession fns Opened c
        → (flag ≡ true → Opened c.backend_ctx)
        → g nothing ≡ c
        → g refused ≡ c
        → ((r : R) → g (f r) ≡ record c { backend_ctx = state r })
        → (Opened c.backend_ctx → Safely (m fns) (λ r. Opened (state r)))
        → Safely
            ((if flag
                then (if empty then done nothing else call c (λ fns'. m fns' >>= λ r. done (f r)))
                else done refused)
              >>= λ x. done (g x))
            (IsSession fns Opened)
    guarded c false empty m f g state nothing refused v at e e' same safe = rw e' v
    guarded c true true m f g state nothing refused v at e e' same safe = rw e v
    guarded c true false m f g state nothing refused v at e e' same safe =
        rw (through c (λ fns'. m fns' >>= λ r. done (f r)) v)
          (pass (m fns) f g c state v same (safe (at refl)))

    -- Opening: a backend that opens, and one that refuses.
    opened :
        (c : Ctx B) (m : Outcome (Status × B))
        → IsSession fns Opened c
        → Safely m (λ (s, b). s ≡ ok → Opened b)
        → (Opened c.backend_ctx → Safely m (λ (s, b). Opened b))
        → Safely
            ((m >>= λ (s, b).
                if is_ok s
                then done (ok, record c { backend_ctx = b; connected = true })
                else done (failed, record c { backend_ctx = b }))
              >>= λ (s, c'). done c')
            (IsSession fns Opened)
    opened c fault v new kept = new
    opened c abort v new kept = tt
    opened c hang v new kept = tt
    opened c (done (ok, b)) v new kept = record {
      has_functions = v.has_functions;
      is_open = λ e. new refl;
    }
    opened c (done (_, b)) v new kept = record {
      has_functions = v.has_functions;
      is_open = λ e. kept (v.is_open e);
    }

    open-IsSession :
        (n : ℕ) (c : Ctx B)
        → IsSession fns Opened c
        → Safely (step (open_call n) c) (IsSession fns Opened)
    unfolding step open_ctx
    open-IsSession n c v =
        rw
          (through {R = Status × Ctx B} c
            (λ fns'.
              if ltb (fns'.get_channel_count c.backend_ctx) n
              then done (efeature, c)
              else (fns'.open_b c.backend_options c.backend_ctx n >>= λ (s, b).
                  if is_ok s
                  then done (ok, record c { backend_ctx = b; connected = true })
                  else done (failed, record c { backend_ctx = b })))
            v)
          (elim (Bool-cases (ltb (fns.get_channel_count c.backend_ctx) n)) [
            | inl few ↦ rw few v
            | inr enough ↦ rw enough (
                opened c (fns.open_b c.backend_options c.backend_ctx n) v
                  (laws.opens c.backend_options c.backend_ctx n)
                  (laws.stays c.backend_options c.backend_ctx n))
          ])

    closed :
        (c : Ctx B) (m : Outcome (Status × B))
        → IsSession fns Opened c
        → Safely m (λ (s, b). Unit)
        → Safely
            ((m >>= λ (s, b). done (s, record c { backend_ctx = b; connected = false }))
              >>= λ (s, c'). done c')
            (IsSession fns Opened)
    closed c fault v safe = safe
    closed c abort v safe = tt
    closed c hang v safe = tt
    closed c (done (s, b)) v safe = record {
      has_functions = v.has_functions;
      is_open = λ (e : false ≡ true). cc;
    }

    -- A call that the context passes on only while it is connected keeps the invariant.
    step-IsSession :
        (k : Call) (c : Ctx B)
        → HasRoom k
        → IsSession fns Opened c
        → Safely (step k c) (IsSession fns Opened)
    unfolding step glip_read glip_read_b glip_write glip_write_b glip_logic_reset glip_close
    step-IsSession (open_call n) c room v = open-IsSession n c v
    step-IsSession close_call c room v =
        let c' = record c { connected = false } in
        rw
          (through {R = Status × Ctx B} c'
            (λ fns'.
              fns'.close_b c'.backend_ctx >>= λ (s, b). done (s, record c' { backend_ctx = b }))
            (record { has_functions = v.has_functions; is_open = λ e. cc }))
          (closed c (fns.close_b c.backend_ctx) v (laws.closes c.backend_ctx))
    step-IsSession reset_call c room v =
        guarded c c.connected false (λ fns'. fns'.logic_reset c.backend_ctx)
          (λ (s, b). (s, record c { backend_ctx = b })) (λ (s, c'). c') (λ (s, b). b) (ok, c)
          (failed, c) v v.is_open refl refl (λ r. refl) (laws.resets c.backend_ctx)
    step-IsSession (read_call channel size xs n) c room v =
        guarded c c.connected (size == 0) (λ fns'. fns'.read c.backend_ctx channel size xs n)
          (λ (s, out, k, b). (s, out, k, record c { backend_ctx = b })) (λ (s, out, k, c'). c')
          (λ (s, out, k, b). b) (ok, xs, 0, c) (failed, xs, n, c) v v.is_open refl refl (λ r. refl)
          (λ at. laws.reads c.backend_ctx channel size xs n at room)
    step-IsSession (write_call channel size xs n) c room v =
        guarded c c.connected (size == 0) (λ fns'. fns'.write c.backend_ctx channel size xs n)
          (λ (s, k, b). (s, k, record c { backend_ctx = b })) (λ (s, k, c'). c') (λ (s, k, b). b)
          (ok, 0, c) (failed, n, c) v v.is_open refl refl (λ r. refl)
          (λ at. laws.writes c.backend_ctx channel size xs n at room)
    step-IsSession (read_b_call channel size xs n t) c room v =
        guarded c c.connected (size == 0) (λ fns'. fns'.read_b c.backend_ctx channel size xs n t)
          (λ (s, out, k, b). (s, out, k, record c { backend_ctx = b })) (λ (s, out, k, c'). c')
          (λ (s, out, k, b). b) (ok, xs, 0, c) (failed, xs, n, c) v v.is_open refl refl (λ r. refl)
          (λ at. laws.reads_b c.backend_ctx channel size xs n t at room)
    step-IsSession (write_b_call channel size xs n t) c room v =
        guarded c c.connected (size == 0) (λ fns'. fns'.write_b c.backend_ctx channel size xs n t)
          (λ (s, k, b). (s, k, record c { backend_ctx = b })) (λ (s, k, c'). c') (λ (s, k, b). b)
          (ok, 0, c) (failed, n, c) v v.is_open refl refl (λ r. refl)
          (λ at. laws.writes_b c.backend_ctx channel size xs n t at room)

    -- Over a backend that keeps its promises, no sequence of calls on a context, connected or not,
    -- with arrays that have room for what is asked, makes it leave an object, and the context that comes out has the same functions and is
    -- connected only over an open backend.
    pub run-IsSession :
        (ks : List Call) (c : Ctx B)
        → HaveRoom ks
        → IsSession fns Opened c
        → Safely (run ks c) (IsSession fns Opened)
    unfolding run
    run-IsSession [] c rooms v = v
    run-IsSession (k ∷ ks) c rooms v =
        Safely-bind (step k c) (run ks) (IsSession fns Opened) (IsSession fns Opened)
          (step-IsSession k c rooms.0 v) (λ c' v'. run-IsSession ks c' rooms.1 v')
