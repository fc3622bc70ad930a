-- ===== src/OmniRoute/Classifier/Examples.antt =====
-- The boundary's theorems at a platform whose task types are known by their names.
use jarvis_brain.Floats.{whole}
use jarvis_brain.Dict.{get}
use jarvis_brain.Text.{is_in, starts_with, join}
use jarvis_brain.OmniRoute.Schemas.{
  privacy_discrete, locality_discrete, capability_discrete, category_discrete, capability_eq,
  RouteLocality, RoutePrivacy, ModelCapability, OmniRouteRoute,
}
use jarvis_brain.OmniRoute.Registry.{list_routes, sorted_routes, insert_route, is_operator_approved}
use jarvis_brain.OmniRoute.Registry.Examples.{first_route}
use jarvis_brain.OmniRoute.Policy.{
  failures, locality_checks, capability_checks, hard_filter, score, place, sift, best, choose,
  select,
}
use jarvis_brain.OmniRoute.Policy.Examples.{both, policy}
use jarvis_brain.OmniRoute.Signals.{
  Platform, LlmMessage, RequestMetadata, has_keyword, joined_user_text, first_match,
  sensitive_keywords, classify_task, classify_privacy, estimate,
}
use jarvis_brain.OmniRoute.Classifier.{capabilities, mapped, category, classify}
use jarvis_brain.OmniRoute.Classifier.Boundary.{unauthorised_stays, cloud_required_stays}
use jarvis_brain.Prelude.{
  String, ◌≡◌, refl, Bool, true, false, Option, none, some, List, [], ◌∷◌, if◌then◌else◌, nat_eq,
  string_eq, pair_eq, keep, any, all, contains, unique_from,
}

abbrev known : List String → String → Option String
known names text = if contains names text then some text else none

-- The texts of these examples are in lower case.
abbrev pub names : Platform
names = record {
  LlmTaskType = String;
  task_eq = string_eq;
  parse_task = known ("coding" ∷ "conversation" ∷ []);
  intent_resolution = "intent_resolution";
  coding = "coding";
  planning = "planning";
  world_intelligence = "world_intelligence";
  vision = "vision";
  voice = "voice";
  retrieval = "retrieval";
  structured_extraction = "structured_extraction";
  summarization = "summarization";
  tool_planning = "tool_planning";
  creative = "creative";
  reasoning = "reasoning";
  conversation = "conversation";
  general = "general";
  guidance = "guidance";
  parse_privacy = known ("local_only" ∷ "cloud_allowed" ∷ "cloud_required" ∷ []);
  local_only = "local_only";
  local_preferred = "local_preferred";
  lower = λ text. text;
}

abbrev pub hello : List LlmMessage
hello = record { is_user = true; content = "hello" } ∷ []

abbrev asks : Option String → RequestMetadata
asks privacy = record {
  task_type = none;
  privacy_class = privacy;
  cloud_authorized = false;
  source = none;
  system_command = true;
  private_document = false;
}

-- Without the mark of a system command.
abbrev pub chat : Option String → Bool → RequestMetadata
chat privacy authorised = record (asks privacy) {
  system_command = false;
  cloud_authorized = authorised;
}

unauthorised_chosen :
    (select whole both (classify names hello (chat (some "cloud_allowed") false))).route
    ≡ some first_route
unfolding select choose best sift place list_routes sorted_routes insert_route score keep
    hard_filter failures locality_checks capability_checks is_operator_approved all any contains
    unique_from locality_discrete privacy_discrete capability_discrete get category_discrete
    classify classify_task classify_privacy estimate joined_user_text first_match mapped category
    capabilities is_in starts_with join
unauthorised_chosen = refl

required_known : names.parse_privacy "cloud_required" ≡ some "cloud_required"
unfolding contains
required_known = refl

required_chosen :
    (select whole both (classify names hello (chat (some "cloud_required") true))).route
    ≡ some first_route
unfolding select choose best sift place list_routes sorted_routes insert_route score keep
    hard_filter failures locality_checks capability_checks is_operator_approved all any contains
    unique_from locality_discrete privacy_discrete capability_discrete get category_discrete
    classify classify_task classify_privacy estimate joined_user_text first_match mapped category
    capabilities is_in starts_with join
required_chosen = refl

abbrev pub secret : List LlmMessage
secret = record { is_user = true; content = "my password" } ∷ []

pub secret_found : has_keyword sensitive_keywords (joined_user_text names secret) ≡ true
unfolding any joined_user_text keep is_in starts_with join
secret_found = refl

-- Both routes can execute locally here.
abbrev able : OmniRouteRoute
able = record first_route {
  capabilities =
      ModelCapability.general_chat ∷ ModelCapability.low_latency ∷ ModelCapability.local_execution
      ∷ [];
}

secret_chosen :
    (select whole (policy (able ∷ [])) (classify names secret (chat none true))).route ≡ some able
unfolding select choose best sift place list_routes sorted_routes insert_route score keep
    hard_filter failures locality_checks capability_checks is_operator_approved all any contains
    unique_from locality_discrete privacy_discrete capability_discrete get category_discrete
    classify classify_task classify_privacy estimate joined_user_text first_match mapped category
    capabilities is_in starts_with join
secret_chosen = refl

unauthorised_stays_example :
    (first_route.locality ≡ RouteLocality.local)
    × (first_route.privacy_class ≡ RoutePrivacy.local_only)
unauthorised_stays_example =
    unauthorised_stays whole both names hello (chat (some "cloud_allowed") false) first_route refl
      unauthorised_chosen

cloud_required_stays_example :
    (first_route.locality ≡ RouteLocality.local)
    × (first_route.privacy_class ≡ RoutePrivacy.local_only)
cloud_required_stays_example =
    cloud_required_stays whole both names hello (chat (some "cloud_required") true) first_route
      "cloud_required" refl required_known required_chosen
