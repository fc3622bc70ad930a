-- ===== src/OmniRoute/Circuit/Runs.antt =====
-- Histories of calls of one breaker (src/jarvis_brain/llm/omniroute/circuit.py).
use mathlib.Core.Option.{get_or}
use mathlib.Core.Bool.{◌||◌}
use mathlib.Core.List.{Mem, mem-cons_self, mem-cons_of_mem}
use jarvis_brain.Prelude.{
  ℕ, ◌+◌, ◌≤◌, ◌<◌, ◌≡◌, refl, Bool, Option, none, some, List, [], ◌∷◌, ◌≢◌, arith, leb, Bool-cases,
  inl, inr, nat_eq, string_eq, pair_eq,
}
use jarvis_brain.OmniRoute.Circuit.{
  second, GatewayCircuitState, healthy, degraded, unavailable, rate_limited, circuit_open,
  recovering, GatewayCircuitBreaker, new_breaker, is_blocking, allow_request, record_success,
  record_failure, snapshot, is_waiting,
}

-- A call with the clock readings that it uses.
pub data Call : Type 0 where
  asks : Option ℕ → ℕ → Call
  succeeds : Call
  fails : Bool → ℕ → Call
  looks : Option ℕ → ℕ → Call

unfoldable pub step : GatewayCircuitBreaker → Call → GatewayCircuitBreaker
unfolding allow_request record_success record_failure snapshot
step b (asks now clock) = (allow_request now clock b).1
step b succeeds = record_success b
step b (fails limited clock) = record_failure limited clock b
step b (looks now clock) = (snapshot now clock b).1

-- The newest call stands first.
unfoldable pub run : GatewayCircuitBreaker → List Call → GatewayCircuitBreaker
run b [] = b
run b (c ∷ earlier) = step (run b earlier) c

-- What the fields say of one another in each state.
abbrev pub StateFits : GatewayCircuitState → GatewayCircuitBreaker → Type 0
StateFits healthy b = (b.failures ≡ 0) × (b.opened_at ≡ none)
StateFits degraded b = (0 < b.failures) × (b.failures < b.failure_threshold)
StateFits unavailable b = ⊥
StateFits rate_limited b = (0 < b.failures) × (b.opened_at ≢ none)
StateFits circuit_open b = (b.failure_threshold ≤ b.failures) × (b.opened_at ≢ none)
StateFits recovering b = (0 < b.failures) × (b.opened_at ≢ none)

pub record IsSound (b : GatewayCircuitBreaker) : Type 0 where
  pub threshold_positive : 0 < b.failure_threshold
  pub recovery_long : second ≤ b.recovery_ticks
  pub fits : StateFits b.state b

pub new_breaker-IsSound : (threshold recovery : ℕ) → IsSound (new_breaker threshold recovery)
unfolding new_breaker
new_breaker-IsSound threshold recovery = ground arith

record_failure-IsSound :
    (limited : Bool) (clock : ℕ) {b : GatewayCircuitBreaker}
    → IsSound b
    → IsSound (record_failure limited clock b)
unfolding record_failure
record_failure-IsSound limited clock s = ground arith

allow_request-IsSound :
    (now : Option ℕ) (clock : ℕ) {b : GatewayCircuitBreaker}
    → IsSound b
    → IsSound (allow_request now clock b).1
unfolding allow_request
allow_request-IsSound now clock s = ground arith

pub step-IsSound : {b : GatewayCircuitBreaker} (c : Call) → IsSound b → IsSound (step b c)
unfolding step
step-IsSound (asks now clock) s = allow_request-IsSound now clock s
step-IsSound succeeds s = ground arith
step-IsSound (fails limited clock) s = record_failure-IsSound limited clock s
step-IsSound (looks now clock) s = allow_request-IsSound now clock s

pub run-IsSound :
    (b : GatewayCircuitBreaker) (calls : List Call) → IsSound b → IsSound (run b calls)
unfolding run
run-IsSound b [] s = s
run-IsSound b (c ∷ earlier) s = step-IsSound c (run-IsSound b earlier s)

-- The clock readings at which a call of the history recorded a failure.
abbrev pub failed_at : List Call → List ℕ
failed_at [] = []
failed_at (fails limited clock ∷ earlier) = clock ∷ failed_at earlier
failed_at (asks now clock ∷ earlier) = failed_at earlier
failed_at (succeeds ∷ earlier) = failed_at earlier
failed_at (looks now clock ∷ earlier) = failed_at earlier

-- The time of opening is the time of a failure of the history.
abbrev pub OpenedIn : List ℕ → Option ℕ → Type 0
OpenedIn times none = Unit
OpenedIn times (some t) = Mem t times

allow_request-OpenedIn :
    (times : List ℕ) (now : Option ℕ) (clock : ℕ) (b : GatewayCircuitBreaker)
    → OpenedIn times b.opened_at
    → OpenedIn times (allow_request now clock b).1.opened_at
unfolding allow_request
allow_request-OpenedIn times now clock b h = elim (Bool-cases (is_blocking b.state)) [
  | inl shut ↦ elim (Bool-cases (is_waiting b.opened_at (get_or now clock) b.recovery_ticks)) [
    | inl waits ↦ rw (shut, waits) h
    | inr over ↦ rw (shut, over) h
  ]
  | inr clear ↦ rw clear h
]

OpenedIn-later : (t : ℕ) (times : List ℕ) (o : Option ℕ) → OpenedIn times o → OpenedIn (t ∷ times) o
OpenedIn-later t times none h = h
OpenedIn-later t times (some u) h = mem-cons_of_mem t h

record_failure-OpenedIn :
    (times : List ℕ) (limited : Bool) (clock : ℕ) (b : GatewayCircuitBreaker)
    → OpenedIn times b.opened_at
    → OpenedIn (clock ∷ times) (record_failure limited clock b).opened_at
unfolding record_failure
record_failure-OpenedIn times limited clock b h =
    elim (Bool-cases (limited || leb b.failure_threshold (b.failures + 1))) [
      | inl trips ↦ rw trips mem-cons_self
      | inr stays ↦ rw stays (OpenedIn-later clock times b.opened_at h)
    ]

pub run-OpenedIn :
    (b : GatewayCircuitBreaker) (calls : List Call)
    → b.opened_at ≡ none
    → OpenedIn (failed_at calls) (run b calls).opened_at
unfolding run step record_success snapshot
run-OpenedIn b [] e = rw e tt
run-OpenedIn b (asks now clock ∷ earlier) e =
    allow_request-OpenedIn _ now clock _ (run-OpenedIn b earlier e)
run-OpenedIn b (succeeds ∷ earlier) e = tt
run-OpenedIn b (fails limited clock ∷ earlier) e =
    record_failure-OpenedIn _ limited clock (run b earlier) (run-OpenedIn b earlier e)
run-OpenedIn b (looks now clock ∷ earlier) e =
    allow_request-OpenedIn _ now clock _ (run-OpenedIn b earlier e)

-- No call writes the two settings.
pub run_settings :
    (b : GatewayCircuitBreaker) (calls : List Call)
    → ((run b calls).failure_threshold ≡ b.failure_threshold)
      × ((run b calls).recovery_ticks ≡ b.recovery_ticks)
unfolding run step record_success record_failure snapshot allow_request
run_settings b [] = (refl, refl)
run_settings b (asks now clock ∷ earlier) = ground (arith, run_settings b earlier)
run_settings b (succeeds ∷ earlier) = ground (arith, run_settings b earlier)
run_settings b (fails limited clock ∷ earlier) = ground (arith, run_settings b earlier)
run_settings b (looks now clock ∷ earlier) = ground (arith, run_settings b earlier)
