-- ===== src/OmniRoute/Circuit/Examples.antt =====
-- Runs of the breaker and the registry on small inputs.
use jarvis_brain.OmniRoute.Circuit.{second, circuit_open, new_breaker, allow_request}
use jarvis_brain.OmniRoute.Circuit.Runs.{Call, fails, succeeds, run, step, failed_at}
use jarvis_brain.OmniRoute.Circuit.Refusals.{refused-Mem-failed_at, allowed_eventually}
use mathlib.Core.List.{Mem}
use jarvis_brain.Prelude.{
  ℕ, ◌+◌, ◌-◌, ◌≤◌, ◌<◌, max, ◌≡◌, refl, true, false, some, List, [], ◌∷◌, nat_eq, string_eq,
  pair_eq,
}

abbrev tripped : List Call
tripped = fails false 7 ∷ fails false 3 ∷ succeeds ∷ []

tripped_state : (run (new_breaker 2 0) tripped).state ≡ circuit_open
unfolding run step new_breaker
tripped_state = refl

tripped_refuses : (allow_request (some 9) 0 (run (new_breaker 2 0) tripped)).0 ≡ false
unfolding run step new_breaker allow_request
tripped_refuses = refl

recovers : (allow_request (some (7 + second)) 0 (run (new_breaker 2 0) tripped)).0 ≡ true
unfolding run step new_breaker allow_request
recovers = refl

refused-Mem-failed_at_example : (t : ℕ) × Mem t (failed_at tripped) × (9 - t < max second 0)
refused-Mem-failed_at_example = refused-Mem-failed_at 2 0 tripped 9 0 tripped_refuses

allowed_eventually_example :
    (t : ℕ) × ((now clock : ℕ)
      → t ≤ now
      → (allow_request (some now) clock (run (new_breaker 2 0) tripped)).0 ≡ true)
allowed_eventually_example = allowed_eventually 2 0 tripped
