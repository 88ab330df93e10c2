-- ===== src/Glip/New.antt =====
-- How `glip_new` finds a backend and what context it makes.
use demo_testbench.Base.{
  ℕ, Bool, true, false, List, [], ◌∷◌, ◌++◌, Option, none, some, Outcome, done,
}
use demo_testbench.Base.{
  Status, ok, enomem, eunknown_backend, texts_eq, texts_eq_iff, ◌≡◌, ◌≢◌, refl, Bool-cases, inl,
  inr,
}
use demo_testbench.Glip.{
  Entry, Backend, Ctx, Registered, log_err, find_backend, glip_new_with, glip_new,
}

module _ {B : Type 0} where
  -- No backend has the name.
  abbrev pub IsUnknown : List ℕ → List (Registered B) → Type 0
  IsUnknown name [] = Unit
  IsUnknown name (r ∷ rs) = (r.name ≢ name) × IsUnknown name rs

  find_backend-first :
      (before : List (Registered B)) (r : Registered B) (after : List (Registered B))
      → IsUnknown r.name before
      → find_backend (before ++ (r ∷ after)) r.name ≡ some r
  unfolding find_backend
  find_backend-first [] r after h = rw ((texts_eq_iff r.name r.name).1 refl) refl
  find_backend-first (b ∷ before) r after (ne, h) = elim (Bool-cases (texts_eq b.name r.name)) [
    | inl same ↦ absurd (ne ((texts_eq_iff b.name r.name).0 same))
    | inr differ ↦ rw differ (find_backend-first before r after h)
  ]

  find_backend-none :
      (rs : List (Registered B)) (name : List ℕ) → IsUnknown name rs → find_backend rs name ≡ none
  unfolding find_backend
  find_backend-none [] name h = refl
  find_backend-none (r ∷ rs) name (ne, h) = elim (Bool-cases (texts_eq r.name name)) [
    | inl same ↦ absurd (ne ((texts_eq_iff r.name name).0 same))
    | inr differ ↦ rw differ (find_backend-none rs name h)
  ]

  -- The context that a constructor's answer makes.
  abbrev pub new_ctx : ℕ → List Entry → Option (Backend B) → B → Ctx B
  new_ctx prio options functions b = record {
    log_priority = prio;
    caller_ctx = 0;
    backend_ctx = b;
    backend_functions = functions;
    backend_options = options;
    connected = false;
  }

  -- With memory for the context: an unknown name, and a backend that is disabled in the build, are
  -- refused; the first enabled backend of the name makes an unconnected context with the functions
  -- and the state that its constructor leaves, and this succeeds whatever status the constructor
  -- gives. Without memory nothing is made.
  pub glip_new_lem :
      (before after : List (Registered B)) (name unknown : List ℕ)
      (new : List Entry → Outcome (Status × Option (Backend B) × B)) (s : Status)
      (functions : Option (Backend B)) (b : B) (strtol : List ℕ → ℕ × Bool) (options : List Entry)
      → IsUnknown name before
      → IsUnknown unknown before
      → new options ≡ done (s, functions, b)
      → let enabled = before ++ (record { name = name; new = some new } ∷ after) in
        let disabled = before ++ (record { name = name; new = none } ∷ after) in
        (glip_new enabled true none strtol name options
          ≡ done (ok, some (new_ctx log_err options functions b)))
        × (glip_new disabled true none strtol name options ≡ done (eunknown_backend, none))
        × (glip_new before true none strtol unknown options ≡ done (eunknown_backend, none))
        × (glip_new enabled false none strtol name options ≡ done (enomem, none))
  unfolding glip_new glip_new_with
  glip_new_lem before after name unknown new s functions b strtol options first absent answer =
      let found = find_backend-first before (record { name = name; new = some new }) after first in
      let found' = find_backend-first before (record { name = name; new = none }) after first in
      let missing = find_backend-none before unknown absent in
      (rw (found, answer) refl, rw found' refl, rw missing refl, refl)
