-- ===== src/OmniRoute/Circuit.antt =====
-- The circuit breaker of the gateway and the registry of breakers
-- (src/jarvis_brain/llm/omniroute/circuit.py). Times are readings of one clock as whole numbers of
-- its ticks, `second` of them to a second; a reading that the code takes itself is an argument.
pub mod Runs
pub mod Refusals
pub mod Ownership
mod Examples
use mathlib.Core.Option.{get_or}
use jarvis_brain.Prelude.{
  ℕ, ◌+◌, ◌-◌, max, String, string_eq, Bool, true, false, ◌||◌, Option, none, some, ltb, leb,
  if◌then◌else◌, zero, suc, ◌*◌, ◌/◌, ◌%◌, ◌≤◌, ◌<◌, min, ◌≡◌, refl, sym, ap, ◌∙◌, subst, ◌≢◌, ◌↔◌,
  ◌⊎◌, inl, inr, not, ◌&&◌, List, [], ◌∷◌, ◌++◌, map, reverse, arith, nat_beq, ltb→lt, lt→ltb,
  le→ltb, leb→le, le→leb, nat_beq_iff, Bool-cases, Option-cases, Eq, ◌==◌, nat_eq, pair_eq, length,
  drop, last_n, keep, All, any, all, length-append, length-drop, length-last_n, contains, eq_iff,
  eq_refl, list_cases, last_n-last_n-append, last_n-short, drop-append, drop-drop, drop_at,
  drop-nil, ltb_asym, ltb_mono, dec_beq, dec_beq_iff, discrete_eq, unique, unique_from, is_subset,
  Mem, mem-cons_self, mem-cons_of_mem, all-Mem, contains-Mem, find, find-Mem, all_intro, keep-Mem,
  contains_of_Mem, All-Mem, append-eq-nil, unique-eq-nil, eq-cases, if-elim,
}
use jarvis_brain.Dict.{Dict, get, put}

abbrev pub second : ℕ
second = 1_000_000_000

pub data GatewayCircuitState : Type 0 where
  healthy degraded unavailable rate_limited circuit_open recovering : GatewayCircuitState

pub record GatewayCircuitBreaker : Type 0 where
  pub failure_threshold : ℕ
  pub recovery_ticks : ℕ
  pub failures : ℕ
  pub state : GatewayCircuitState
  pub opened_at : Option ℕ

pub record GatewayCircuitSnapshot : Type 0 where
  pub state : GatewayCircuitState
  pub consecutive_failures : ℕ
  pub request_allowed : Bool

unfoldable pub new_breaker : ℕ → ℕ → GatewayCircuitBreaker
new_breaker threshold recovery = record {
  failure_threshold = max 1 threshold;
  recovery_ticks = max second recovery;
  failures = 0;
  state = healthy;
  opened_at = none;
}

-- The states of the set that `allow_request` tests.
abbrev pub is_blocking : GatewayCircuitState → Bool
is_blocking circuit_open = true
is_blocking rate_limited = true
is_blocking healthy = false
is_blocking degraded = false
is_blocking unavailable = false
is_blocking recovering = false

-- `_opened_at is None or current - _opened_at < recovery_seconds`; the cut difference of a
-- reading before the opening is below every delay, as the negative one of the code is.
abbrev pub is_waiting : Option ℕ → ℕ → ℕ → Bool
is_waiting none current recovery = true
is_waiting (some opened) current recovery = ltb (current - opened) recovery

-- The argument `now` comes first, then the reading of `monotonic()` that is used without it.
unfoldable pub allow_request : Option ℕ → ℕ → GatewayCircuitBreaker → Bool × GatewayCircuitBreaker
allow_request now clock b =
    let current = get_or now clock in
    if is_blocking b.state
    then if is_waiting b.opened_at current b.recovery_ticks
      then (false, b)
      else (true, record b { state = recovering })
    else (true, b)

unfoldable pub record_success : GatewayCircuitBreaker → GatewayCircuitBreaker
record_success b = record b { failures = 0; opened_at = none; state = healthy }

unfoldable pub record_failure : Bool → ℕ → GatewayCircuitBreaker → GatewayCircuitBreaker
record_failure limited clock b =
    if limited || leb b.failure_threshold (b.failures + 1)
    then record b {
      failures = b.failures + 1;
      state = if limited then rate_limited else circuit_open;
      opened_at = some clock;
    }
    else record b { failures = b.failures + 1; state = degraded }

unfoldable pub snapshot :
    Option ℕ → ℕ → GatewayCircuitBreaker → GatewayCircuitSnapshot × GatewayCircuitBreaker
unfolding allow_request
snapshot now clock b =
    let (allowed, b') = allow_request now clock b in
    (record { state = b'.state; consecutive_failures = b'.failures; request_allowed = allowed }, b')

-- The process-wide registry. A caller holds a reference to the breaker of its route, so what it
-- does to it is a write to the registry at that key.
abbrev pub GatewayCircuitRegistry : Type 0
GatewayCircuitRegistry = Dict String GatewayCircuitBreaker

unfoldable pub for_route :
    String → ℕ → ℕ → GatewayCircuitRegistry → GatewayCircuitBreaker × GatewayCircuitRegistry
for_route route threshold recovery circuits = elim (get circuits route) [
  | some circuit ↦ (circuit, circuits)
  | none ↦ let circuit = new_breaker threshold recovery in (circuit, put circuits route circuit)
]

unfoldable pub clear : GatewayCircuitRegistry → GatewayCircuitRegistry
clear registry = []
