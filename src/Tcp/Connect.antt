-- ===== src/Tcp/Connect.antt =====
-- Connecting to a host, `gl_util_connect_to_host` of glip/src/util.c.
use demo_testbench.Base.{
  Bool-cases, inl, inr, ◌≡◌, refl, ℕ, ltb, if◌then◌else◌, Bool, List, [], ◌∷◌, Option, none, some,
}

-- An address of a host: the descriptor that `socket` gives, if any, and whether `connect` works.
pub record Host : Type 0 where
  pub socket : Option ℕ
  pub accepts : Bool

-- The loop over the addresses, with the descriptor that is connected and those that were closed.
pub try_hosts : List Host → Option ℕ × List ℕ
try_hosts [] = (none, [])
try_hosts (h ∷ hs) =
    let (fd, closed) = try_hosts hs in
    elim (h.socket) [
      | none ↦ (fd, closed)
      | some s ↦ if h.accepts then (some s, []) else (fd, s ∷ closed)
    ]

-- `getaddrinfo` gives the addresses, or fails.
pub gl_util_connect_to_host : (List ℕ → ℕ → Option (List Host)) → List ℕ → ℕ → Option ℕ × List ℕ
gl_util_connect_to_host resolve hostname port =
    if ltb 9999999 port
    then (none, [])
    else elim (resolve hostname port) [ none ↦ (none, []) | some hs ↦ try_hosts hs ]

-- Where no name resolves, nothing is connected.
pub connect_unresolved :
    (hostname : List ℕ) (port : ℕ)
    → (gl_util_connect_to_host (λ name number. none) hostname port).0 ≡ none
unfolding gl_util_connect_to_host
connect_unresolved hostname port = elim (Bool-cases (ltb 9999999 port)) [
  | inl out_of_bounds ↦ rw out_of_bounds refl
  | inr in_bounds ↦ rw in_bounds refl
]
