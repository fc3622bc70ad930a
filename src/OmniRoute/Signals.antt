-- ===== src/OmniRoute/Signals.antt =====
-- The deterministic signals of a request
-- (src/jarvis_brain/llm/intelligence_classifiers.py). The enumerations of jarvis_platform and the
-- Unicode table of `str.lower` are a `Platform`.
use Prim.Native.String.{count}
use jarvis_brain.Text.{is_in, join}
use jarvis_brain.Prelude.{
  String, ℕ, ◌+◌, min, max, Bool, ◌||◌, Option, none, some, List, [], ◌∷◌, map, ltb, if◌then◌else◌,
  Eq, nat_eq, string_eq, pair_eq, keep, any, get_or,
}

-- jarvis_platform's LLMTaskType and LLMPrivacyClass: the members that the code names, and `parse`, which
-- is the call of the enumeration on a text, with `none` for its `ValueError`. A privacy class is
-- known by its `.value`.
pub record Platform : Type 1 where
  pub LlmTaskType : Type 0
  pub task_eq : Eq LlmTaskType
  pub parse_task : String → Option LlmTaskType
  pub intent_resolution : LlmTaskType
  pub coding : LlmTaskType
  pub planning : LlmTaskType
  pub world_intelligence : LlmTaskType
  pub vision : LlmTaskType
  pub voice : LlmTaskType
  pub retrieval : LlmTaskType
  pub structured_extraction : LlmTaskType
  pub summarization : LlmTaskType
  pub tool_planning : LlmTaskType
  pub creative : LlmTaskType
  pub reasoning : LlmTaskType
  pub conversation : LlmTaskType
  pub general : LlmTaskType
  pub guidance : LlmTaskType
  pub parse_privacy : String → Option String
  pub local_only : String
  pub local_preferred : String
  pub lower : String → String

pub record LlmMessage : Type 0 where
  pub is_user : Bool
  pub content : String

-- What the classifiers read of the `metadata` dict: an override that is there and is a text; whether
-- `_cloud_authorized` is `True`; `source`; and the truth values of the two flags.
pub record RequestMetadata : Type 0 where
  pub task_type : Option String
  pub privacy_class : Option String
  pub cloud_authorized : Bool
  pub source : Option String
  pub system_command : Bool
  pub private_document : Bool

abbrev pub contents : List LlmMessage → List String
contents = map (λ message. message.content)

-- `parts`, or every message if no user wrote one
abbrev pub user_parts : List LlmMessage → List String → List String
user_parts messages [] = contents messages
user_parts messages (part ∷ parts) = part ∷ parts

-- any(keyword in text for keyword in keywords)
abbrev pub has_keyword : List String → String → Bool
has_keyword keywords text = any (λ keyword. is_in keyword text) keywords

-- The value of an override that the enumeration knows.
abbrev pub override {ℓ} : {A : Type ℓ} → (String → Option A) → Option String → Option A
override parse none = none
override parse (some text) = parse text

abbrev pub sensitive_keywords : List String
sensitive_keywords =
    "api key" ∷ "password" ∷ "token" ∷ "secret" ∷ "private key" ∷ "credential" ∷ "ssn" ∷ "medical"
    ∷ "legal" ∷ "bank" ∷ "finance account" ∷ []

module _ (platform : Platform) where
  open platform use {
    LlmTaskType, task_eq, parse_task, intent_resolution, coding, planning, world_intelligence,
    vision, voice, retrieval, structured_extraction, summarization, tool_planning, creative,
    reasoning, conversation, parse_privacy, local_only, local_preferred, lower,
  }

  unfoldable pub joined_user_text : List LlmMessage → String
  joined_user_text messages =
      lower (join " " (user_parts messages (contents (keep (λ message. message.is_user) messages))))

  abbrev pub checks : List (LlmTaskType × List String)
  checks =
      (intent_resolution, "classify" ∷ "classification" ∷ "intent category" ∷ [])
      ∷ (
        coding,
        "code" ∷ "python" ∷ "fastapi" ∷ "traceback" ∷ "pytest" ∷ "sqlalchemy" ∷ "repo" ∷ "bug"
            ∷ "function" ∷ "class" ∷ [],
      )
      ∷ (planning, "plan" ∷ "roadmap" ∷ "architecture" ∷ "steps" ∷ "design" ∷ [])
      ∷ (
        world_intelligence,
        "world briefing" ∷ "cyber alerts" ∷ "world intelligence" ∷ "global update" ∷ [],
      )
      ∷ (vision, "image" ∷ "screenshot" ∷ "visual" ∷ "photo" ∷ "diagram" ∷ [])
      ∷ (voice, "voice" ∷ "speech" ∷ "tts" ∷ "stt" ∷ "speak" ∷ [])
      ∷ (retrieval, "retrieve" ∷ "source" ∷ "evidence" ∷ "citation" ∷ "official docs" ∷ [])
      ∷ (structured_extraction, "extract json" ∷ "structured" ∷ "parse this" ∷ "schema" ∷ [])
      ∷ (summarization, "summarize" ∷ "summary" ∷ "brief this" ∷ [])
      ∷ (tool_planning, "tool" ∷ "integration" ∷ "connector" ∷ "api action" ∷ [])
      ∷ (creative, "write a story" ∷ "brainstorm" ∷ "creative" ∷ "tagline" ∷ [])
      ∷ (reasoning, "why" ∷ "reason" ∷ "compare" ∷ "decide" ∷ "analyze" ∷ [])
      ∷ []

  -- The loop over the checks: the first whose keywords occur.
  unfoldable pub first_match : String → List (LlmTaskType × List String) → LlmTaskType
  first_match text [] = conversation
  first_match text ((task, keywords) ∷ rest) =
      let later = first_match text rest in if has_keyword keywords text then task else later

  -- CapabilityClassifier.classify
  unfoldable pub classify_task : List LlmMessage → RequestMetadata → LlmTaskType
  classify_task messages metadata =
      get_or (override parse_task metadata.task_type)
        (first_match (joined_user_text messages) checks)

  -- PrivacyClassifier.classify, and its `.value`
  unfoldable pub classify_privacy : List LlmMessage → RequestMetadata → String
  classify_privacy messages metadata = get_or (override parse_privacy metadata.privacy_class) (
      if has_keyword sensitive_keywords (joined_user_text messages)
      then local_only
      else local_preferred)

  abbrev pub is_task : LlmTaskType → LlmTaskType → Bool
  is_task = task_eq.beq

  -- ComplexityEstimator.estimate
  unfoldable pub estimate : List LlmMessage → LlmTaskType → ℕ
  estimate messages task =
      let size = count (joined_user_text messages) in
      let length_score = if ltb size 300 then 1 else if ltb size 1200 then 2 else 3 in
      let task_bonus =
        if is_task task coding || is_task task planning || is_task task reasoning then 1 else 0 in
      max 1 (min 5 (length_score + task_bonus))
