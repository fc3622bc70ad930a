-- ===== src/OmniRoute/Schemas.antt =====
-- The records of the gateway's routes and requests
-- (src/jarvis_brain/llm/omniroute/schemas.py, and the settings of config.py that routing reads).
-- `last_verified_at` and `metadata` of a route, which no decision reads, are left out.
use jarvis_brain.Prelude.{ℕ, String, Bool, List, Eq, nat_eq, string_eq, pair_eq, discrete_eq}

pub data RouteLocality : Type 0 where
  local cloud mixed unknown : RouteLocality

pub data RoutePrivacy : Type 0 where
  local_only cloud_allowed public_only : RoutePrivacy

pub data TaskCategory : Type 0 where
  simple_conversation voice_conversation classification summarization coding : TaskCategory
  code_review debugging software_architecture complex_reasoning long_context : TaskCategory
  structured_extraction research_synthesis creative_writing multilingual vision : TaskCategory
  tool_planning system_command safety_sensitive private_document unknown : TaskCategory

pub data ModelCapability : Type 0 where
  general_chat low_latency reasoning coding long_context : ModelCapability
  structured_output multilingual vision tool_calling : ModelCapability
  high_reliability local_execution : ModelCapability

unfoldable pub locality_discrete : Discrete RouteLocality
locality_discrete = hlevel

unfoldable pub privacy_discrete : Discrete RoutePrivacy
privacy_discrete = hlevel

unfoldable pub capability_discrete : Discrete ModelCapability
capability_discrete = hlevel

unfoldable pub category_discrete : Discrete TaskCategory
category_discrete = hlevel

instance abbrev pub locality_eq : Eq RouteLocality
locality_eq = discrete_eq locality_discrete

instance abbrev pub privacy_eq : Eq RoutePrivacy
privacy_eq = discrete_eq privacy_discrete

instance abbrev pub capability_eq : Eq ModelCapability
capability_eq = discrete_eq capability_discrete

instance abbrev pub category_eq : Eq TaskCategory
category_eq = discrete_eq category_discrete

pub record OmniRouteRoute : Type 0 where
  pub route_id : String
  pub gateway : String
  pub provider_id : String
  pub model_id : String
  pub display_name : String
  pub locality : RouteLocality
  pub privacy_class : RoutePrivacy
  pub capabilities : List ModelCapability
  pub task_categories : List TaskCategory
  pub context_window : ℕ
  pub supports_streaming : Bool
  pub supports_tools : Bool
  pub supports_structured_output : Bool
  pub expected_latency_class : String
  pub expected_quality_class : String
  pub cost_class : String
  pub quota_class : String
  pub terms_status : String
  pub development_only : Bool
  pub production_approved : Bool
  pub enabled : Bool
  pub operator_priority : ℕ
  pub fallback_route_ids : List String

pub record RouteClassification : Type 0 where
  pub task_category : TaskCategory
  pub complexity : String
  pub privacy : String
  pub required_capabilities : List ModelCapability
  pub latency_priority : String
  pub quality_priority : String
  pub estimated_context_tokens : ℕ

-- The settings that selection reads.
pub record OmniRouteSettings : Type 0 where
  pub enabled : Bool
  pub api_key : String
  pub allow_cloud : Bool
  pub allowed_providers : List String
  pub allowed_models : List String
  pub allowed_routes : List String
