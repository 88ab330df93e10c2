-- ===== src/Glip.antt =====
-- The front end of the library, glip/src/glip.c: a context over a backend, how it is made, and the
-- calls that it passes on to the backend.
pub mod Options
pub mod New
pub mod Session
mod Tests
use demo_testbench.Base.{
  ℕ, ◌==◌, ltb, if◌then◌else◌, Bool, true, false, ◌&&◌, ◌||◌, List, [], ◌∷◌, map, length, take,
}
use demo_testbench.Base.{Option, none, some, Outcome, done, fault, ◌>>=◌, Status, ok, failed, is_ok}
use demo_testbench.Base.{enomem, eunknown_backend, efeature, enoinit, texts_eq}

-- `struct glip_option`: a name and a value, as the codes of their characters.
pub record Entry : Type 0 where
  pub name : List ℕ
  pub value : List ℕ

-- `struct glip_backend_if`, on what `backend_ctx` points to. `open` also reads the options. A read
-- gives the status, the caller's array, and what `size_read` points to.
pub record Backend (B : Type 0) : Type 0 where
  pub open_b : List Entry → B → ℕ → Outcome (Status × B)
  pub close_b : B → Outcome (Status × B)
  pub logic_reset : B → Outcome (Status × B)
  pub read : B → ℕ → ℕ → List ℕ → ℕ → Outcome (Status × List ℕ × ℕ × B)
  pub read_b : B → ℕ → ℕ → List ℕ → ℕ → ℕ → Outcome (Status × List ℕ × ℕ × B)
  pub write : B → ℕ → ℕ → List ℕ → ℕ → Outcome (Status × ℕ × B)
  pub write_b : B → ℕ → ℕ → List ℕ → ℕ → ℕ → Outcome (Status × ℕ × B)
  pub get_channel_count : B → ℕ
  pub get_fifo_width : B → ℕ

-- `struct glip_ctx`. The functions are null pointers until a backend sets them. An `int` is its 32
-- bits, and the caller's pointer is a number.
pub record Ctx (B : Type 0) : Type 0 where
  pub log_priority : ℕ
  pub caller_ctx : ℕ
  pub backend_ctx : B
  pub backend_functions : Option (Backend B)
  pub backend_options : List Entry
  pub connected : Bool

abbrev pub log_err : ℕ
log_err = 3

abbrev pub log_info : ℕ
log_info = 6

abbrev pub log_debug : ℕ
log_debug = 7

-- `log_priority`, given what `strtol` makes of the text and whether the character that it stops at
-- is the end or a space.
pub log_priority_of : ℕ × Bool → List ℕ → ℕ
log_priority_of (prio, whole) priority =
    if whole
    then prio
    else if texts_eq (take 3 priority) (b'e' ∷ b'r' ∷ b'r' ∷ [])
    then log_err
    else if texts_eq (take 4 priority) (b'i' ∷ b'n' ∷ b'f' ∷ b'o' ∷ [])
    then log_info
    else if texts_eq (take 5 priority) (b'd' ∷ b'e' ∷ b'b' ∷ b'u' ∷ b'g' ∷ [])
    then log_debug
    else 0

-- An entry of `glip_backends`: the name, and the constructor, unless it is disabled. A constructor
-- gets the options, and gives its status, the functions that it has set, and the new backend.
pub record Registered (B : Type 0) : Type 0 where
  pub name : List ℕ
  pub new : Option (List Entry → Outcome (Status × Option (Backend B) × B))

module _ {B : Type 0} where
  -- The first entry of that name.
  pub find_backend : List (Registered B) → List ℕ → Option (Registered B)
  find_backend [] backend_name = none
  find_backend (r ∷ rs) backend_name =
      if texts_eq r.name backend_name then some r else find_backend rs backend_name

  -- The end of `glip_new`. The status of the constructor is not looked at.
  pub glip_new_with : ℕ → List Entry → Option (Registered B) → Outcome (Status × Option (Ctx B))
  glip_new_with prio options none = done (eunknown_backend, none)
  glip_new_with prio options (some r) = elim (r.new) [
    | none ↦ done (eunknown_backend, none)
    | some new ↦ new options >>= λ (s, functions, b). done (
      ok,
      some (record {
        log_priority = prio;
        caller_ctx = 0;
        backend_ctx = b;
        backend_functions = functions;
        backend_options = options;
        connected = false;
      }),
    )
  ]

  -- `glip_new`, given the backends of the build, whether `calloc` gives memory, the value of
  -- GLIP_LOG in the environment, and what `strtol` makes of a text.
  pub glip_new :
      List (Registered B)
      → Bool
      → Option (List ℕ)
      → (List ℕ → ℕ × Bool)
      → List ℕ
      → List Entry
      → Outcome (Status × Option (Ctx B))
  glip_new backends memory env strtol backend_name options =
      let prio : ℕ = elim env [ none ↦ log_err | some text ↦ log_priority_of (strtol text) text ] in
      if memory
      then glip_new_with prio options (find_backend backends backend_name)
      else done (enomem, none)

  pub glip_get_backends : List (Registered B) → List (List ℕ) × ℕ
  glip_get_backends backends = (map (λ r. r.name) backends, length backends)

  -- A call through a pointer of `backend_functions`.
  pub call_through : {R : Type 0} → Option (Backend B) → (Backend B → Outcome R) → Outcome R
  call_through none f = fault
  call_through (some fns) f = f fns

  pub call : {R : Type 0} → Ctx B → (Backend B → Outcome R) → Outcome R
  unfolding call_through
  call c f = call_through c.backend_functions f

  pub glip_set_caller_ctx : Ctx B → ℕ → Ctx B
  glip_set_caller_ctx c caller = record c { caller_ctx = caller }

  pub glip_get_caller_ctx : Ctx B → ℕ
  glip_get_caller_ctx c = c.caller_ctx

  pub glip_set_log_priority : Ctx B → ℕ → Ctx B
  glip_set_log_priority c priority = record c { log_priority = priority }

  pub glip_get_log_priority : Ctx B → ℕ
  glip_get_log_priority c = c.log_priority

  pub glip_get_fifo_width : Ctx B → Outcome ℕ
  unfolding call
  glip_get_fifo_width c = call c (λ fns. done (fns.get_fifo_width c.backend_ctx))

  pub glip_get_channel_count : Ctx B → Outcome ℕ
  unfolding call
  glip_get_channel_count c = call c (λ fns. done (fns.get_channel_count c.backend_ctx))

  -- `glip_open` on a context that is not a null pointer.
  open_ctx : Ctx B → ℕ → Outcome (Status × Ctx B)
  unfolding call
  open_ctx c num_channels = call c (λ fns.
      if ltb (fns.get_channel_count c.backend_ctx) num_channels
      then done (efeature, c)
      else (fns.open_b c.backend_options c.backend_ctx num_channels >>= λ (s, b).
          if is_ok s
          then done (ok, record c { backend_ctx = b; connected = true })
          else done (failed, record c { backend_ctx = b })))

  pub glip_open : Option (Ctx B) → ℕ → Outcome (Status × Option (Ctx B))
  unfolding open_ctx
  glip_open none num_channels = done (enoinit, none)
  glip_open (some c) num_channels = open_ctx c num_channels >>= λ (s, c'). done (s, some c')

  pub glip_close : Ctx B → Outcome (Status × Ctx B)
  unfolding call
  glip_close c =
      let c' = record c { connected = false } in
      call c'
        (λ fns. fns.close_b c'.backend_ctx >>= λ (s, b). done (s, record c' { backend_ctx = b }))

  pub glip_is_connected : Ctx B → Bool
  glip_is_connected c = c.connected

  pub glip_logic_reset : Ctx B → Outcome (Status × Ctx B)
  unfolding call
  glip_logic_reset c =
      if c.connected
      then call c (λ fns.
        fns.logic_reset c.backend_ctx >>= λ (s, b). done (s, record c { backend_ctx = b }))
      else done (failed, c)

  pub glip_read : Ctx B → ℕ → ℕ → List ℕ → ℕ → Outcome (Status × List ℕ × ℕ × Ctx B)
  unfolding call
  glip_read c channel size data' size_read =
      if c.connected
      then if size == 0
        then done (ok, data', 0, c)
        else call c (λ fns.
          fns.read c.backend_ctx channel size data' size_read >>= λ (s, out, n, b).
          done (s, out, n, record c { backend_ctx = b }))
      else done (failed, data', size_read, c)

  pub glip_read_b : Ctx B → ℕ → ℕ → List ℕ → ℕ → ℕ → Outcome (Status × List ℕ × ℕ × Ctx B)
  unfolding call
  glip_read_b c channel size data' size_read timeout =
      if c.connected
      then if size == 0
        then done (ok, data', 0, c)
        else call c (λ fns.
          fns.read_b c.backend_ctx channel size data' size_read timeout >>= λ (s, out, n, b).
          done (s, out, n, record c { backend_ctx = b }))
      else done (failed, data', size_read, c)

  pub glip_write : Ctx B → ℕ → ℕ → List ℕ → ℕ → Outcome (Status × ℕ × Ctx B)
  unfolding call
  glip_write c channel size data' size_written =
      if c.connected
      then if size == 0
        then done (ok, 0, c)
        else call c (λ fns. fns.write c.backend_ctx channel size data' size_written >>= λ (s, n, b).
            done (s, n, record c { backend_ctx = b }))
      else done (failed, size_written, c)

  pub glip_write_b : Ctx B → ℕ → ℕ → List ℕ → ℕ → ℕ → Outcome (Status × ℕ × Ctx B)
  unfolding call
  glip_write_b c channel size data' size_written timeout =
      if c.connected
      then if size == 0
        then done (ok, 0, c)
        else call c (λ fns.
          fns.write_b c.backend_ctx channel size data' size_written timeout >>= λ (s, n, b).
          done (s, n, record c { backend_ctx = b }))
      else done (failed, size_written, c)
