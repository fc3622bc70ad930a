-- ===== src/Llm/Telemetry.antt =====
-- The router's telemetry (src/jarvis_brain/llm/router_telemetry.py). `D` is a decision. The latencies,
-- which are clock readings, are left out.
use jarvis_brain.Dict.{Dict, get, put}
use jarvis_brain.Prelude.{
  String, ℕ, zero, suc, ◌+◌, Bool, Option, none, some, List, [], ◌∷◌, ◌++◌, if◌then◌else◌, nat_eq,
  string_eq, pair_eq, last_n, get_or,
}

module _ (D : Type 0) where
  pub record LlmRouterTelemetry : Type 0 where
    pub max_decisions : ℕ
    pub total_requests : ℕ
    pub provider_successes : Dict String ℕ
    pub provider_failures : Dict String ℕ
    pub fallback_count : ℕ
    pub routing_decisions : List D

  unfoldable pub new_telemetry : ℕ → LlmRouterTelemetry
  new_telemetry max_decisions = record {
    max_decisions = max_decisions;
    total_requests = 0;
    provider_successes = [];
    provider_failures = [];
    fallback_count = 0;
    routing_decisions = [];
  }

  -- counts[key] = counts.get(key, 0) + 1
  abbrev pub count_up : Dict String ℕ → String → Dict String ℕ
  count_up counts key = put counts key (get_or (get counts key) 0 + 1)

  -- xs[-n:], which for n = 0 is the whole list
  abbrev pub tail_slice {ℓ} : {A : Type ℓ} → ℕ → List A → List A
  tail_slice zero xs = xs
  tail_slice (suc n) xs = last_n (suc n) xs

  -- `_record_decision`
  unfoldable pub record_decision : D → LlmRouterTelemetry → LlmRouterTelemetry
  record_decision decision t = record t {
    routing_decisions = tail_slice t.max_decisions (t.routing_decisions ++ decision ∷ []);
  }

  unfoldable pub record_success : String → D → Bool → LlmRouterTelemetry → LlmRouterTelemetry
  record_success provider decision fallback_used t = record_decision decision (record t {
    total_requests = t.total_requests + 1;
    provider_successes = count_up t.provider_successes provider;
    fallback_count = if fallback_used then t.fallback_count + 1 else t.fallback_count;
  })

  unfoldable pub record_failure : String → Option D → LlmRouterTelemetry → LlmRouterTelemetry
  record_failure provider none t = record t {
    provider_failures = count_up t.provider_failures provider;
  }
  record_failure provider (some decision) t =
      record_decision decision
        (record t { provider_failures = count_up t.provider_failures provider })
