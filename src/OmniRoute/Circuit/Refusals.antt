-- ===== src/OmniRoute/Circuit/Refusals.antt =====
-- When the breaker refuses a request (src/jarvis_brain/llm/omniroute/circuit.py).
use mathlib.Core.List.{Mem}
use jarvis_brain.Prelude.{
  ℕ, ◌+◌, ◌-◌, ◌≤◌, ◌<◌, ◌≡◌, refl, true, false, none, some, List, arith, max, Option-cases, inl,
  inr, subst, ◌⊎◌, map, length, ◌∷◌, ◌||◌, [], ltb, if◌then◌else◌, Bool-cases, nat_eq, string_eq,
  pair_eq,
}
use jarvis_brain.OmniRoute.Circuit.{
  second, GatewayCircuitBreaker, new_breaker, allow_request, record_failure, Bool, record_success,
  is_blocking, leb, recovering,
}
use jarvis_brain.OmniRoute.Circuit.Runs.{
  Call, run, failed_at, IsSound, new_breaker-IsSound, run-IsSound, OpenedIn, run-OpenedIn,
  run_settings, step, fails,
}

-- Whatever the calls before, a breaker built with any settings keeps a positive threshold and a
-- delay of at least a second; its failure count is zero exactly when it is healthy; it is degraded
-- only below the threshold and open only from it; and it never refuses with no opening time.
pub fresh_run-IsSound :
    (threshold recovery : ℕ) (calls : List Call)
    → IsSound (run (new_breaker threshold recovery) calls)
fresh_run-IsSound threshold recovery calls =
    run-IsSound _ calls (new_breaker-IsSound threshold recovery)

refused_state :
    (now clock : ℕ) (b : GatewayCircuitBreaker)
    → IsSound b
    → (allow_request (some now) clock b).0 ≡ false
    → (t : ℕ) × (b.opened_at ≡ some t) × (now - t < b.recovery_ticks)
unfolding allow_request
refused_state now clock b s h = elim (Option-cases b.opened_at) [
  | inl e ↦ absurd (ground arith)
  | inr (t, e) ↦ (t, e, ground arith)
]

-- A request is refused at a time only if a failure was recorded less than the delay before it:
-- the history of the breaker holds a failure at some time `t` with `now - t` below the delay.
pub refused-Mem-failed_at :
    (threshold recovery : ℕ) (calls : List Call) (now clock : ℕ)
    → (allow_request (some now) clock (run (new_breaker threshold recovery) calls)).0 ≡ false
    → (t : ℕ) × Mem t (failed_at calls) × (now - t < max second recovery)
unfolding new_breaker
refused-Mem-failed_at threshold recovery calls now clock h =
    let b = new_breaker threshold recovery in
    let (t, e, recent) =
      refused_state now clock (run b calls) (fresh_run-IsSound threshold recovery calls) h in
    (
      t,
      subst (OpenedIn (failed_at calls)) e (run-OpenedIn b calls refl),
      ground (arith, run_settings b calls),
    )

allowed_closed :
    (now clock : ℕ) (b : GatewayCircuitBreaker)
    → IsSound b
    → b.opened_at ≡ none
    → (allow_request (some now) clock b).0 ≡ true
unfolding allow_request
allowed_closed now clock b s e = ground arith

allowed_after :
    (now clock t : ℕ) (b : GatewayCircuitBreaker)
    → b.opened_at ≡ some t
    → t + b.recovery_ticks ≤ now
    → (allow_request (some now) clock b).0 ≡ true
unfolding allow_request
allowed_after now clock t b e h = ground arith

-- After any history there is a time from which on every request is let through.
pub allowed_eventually :
    (threshold recovery : ℕ) (calls : List Call)
    → (t : ℕ) × ((now clock : ℕ)
        → t ≤ now
        → (allow_request (some now) clock (run (new_breaker threshold recovery) calls)).0 ≡ true)
allowed_eventually threshold recovery calls = from (Option-cases b.opened_at)
  where
    b : GatewayCircuitBreaker
    b = run (new_breaker threshold recovery) calls

    sound : IsSound b
    sound = fresh_run-IsSound threshold recovery calls

    from :
        (b.opened_at ≡ none) ⊎ ((t : ℕ) × (b.opened_at ≡ some t))
        → (t : ℕ) × ((now clock : ℕ) → t ≤ now → (allow_request (some now) clock b).0 ≡ true)
    from (inl e) = (0, λ now clock h. allowed_closed now clock b sound e)
    from (inr (t, e)) = (t + b.recovery_ticks, λ now clock h. allowed_after now clock t b e h)

-- What one failure does: `limited` or the threshold reached trips the breaker, so that requests are
-- refused until the delay is over and the first one after it puts it into recovery, whatever state
-- the breaker was in; any other failure leaves requests allowed.
pub allow_request-record_failure :
    (limited : Bool) (t now clock : ℕ) (b : GatewayCircuitBreaker)
    → allow_request (some now) clock (record_failure limited t b) ≡ (
        let b' = record_failure limited t b in
        if limited || leb b.failure_threshold (b.failures + 1)
        then if ltb (now - t) b.recovery_ticks
          then (false, b')
          else (true, record b' { state = recovering })
        else (true, b'))
unfolding allow_request record_failure
allow_request-record_failure true t now clock b = refl
allow_request-record_failure false t now clock b =
    elim (Bool-cases (leb b.failure_threshold (b.failures + 1))) [
      | inl trips ↦ rw trips
      | inr stays ↦ rw stays
    ]

-- Failures at the given times, with nothing in between.
abbrev pub failures_at : List ℕ → List Call
failures_at = map (fails false)

failures-failures_at :
    (b : GatewayCircuitBreaker) (times : List ℕ)
    → ((run (record_success b) (failures_at times)).failures ≡ length times)
      × ((run (record_success b) (failures_at times)).failure_threshold ≡ b.failure_threshold)
unfolding run step record_success record_failure
failures-failures_at b [] = (refl, refl)
failures-failures_at b (t ∷ times) = ground (arith, failures-failures_at b times)

-- After a success, a row of failures that are not rate limits blocks requests exactly when it is
-- as long as the threshold.
pub blocking_iff_threshold :
    (b : GatewayCircuitBreaker) (times : List ℕ)
    → 0 < b.failure_threshold
    → is_blocking (run (record_success b) (failures_at times)).state
      ≡ leb b.failure_threshold (length times)
unfolding run step record_success record_failure
blocking_iff_threshold b [] h = ground arith
blocking_iff_threshold b (t ∷ times) h = ground (arith, failures-failures_at b times)
