-- ===== src/OmniRoute/Classifier.antt =====
-- The classification that selection works on (src/jarvis_brain/llm/omniroute/classifier.py). The
-- reason codes, which nothing decides on, are left out.
pub mod Boundary
pub mod Examples
use Prim.Native.String.{count}
use jarvis_brain.Text.{is_in, join}
use jarvis_brain.OmniRoute.Schemas.{
  TaskCategory, ModelCapability, capability_eq, category_eq, RouteClassification,
}
use jarvis_brain.OmniRoute.Signals.{
  Platform, LlmMessage, RequestMetadata, contents, has_keyword, is_task, classify_task,
  classify_privacy, estimate,
}
use jarvis_brain.Prelude.{
  String, ℕ, zero, suc, ◌+◌, ◌-◌, ◌*◌, ◌/◌, ◌%◌, ◌≤◌, ◌<◌, min, max, ◌≡◌, refl, sym, ap, ◌∙◌, subst,
  ◌≢◌, ◌↔◌, ◌⊎◌, inl, inr, Bool, true, false, not, ◌&&◌, ◌||◌, Option, none, some, List, [], ◌∷◌,
  ◌++◌, map, reverse, arith, ltb, leb, nat_beq, if◌then◌else◌, ltb→lt, lt→ltb, le→ltb, leb→le,
  le→leb, nat_beq_iff, Bool-cases, Option-cases, Eq, ◌==◌, nat_eq, string_eq, pair_eq, length, drop,
  last_n, keep, All, any, all, length-append, length-drop, length-last_n, contains, get_or, eq_iff,
  eq_refl, list_cases, last_n-last_n-append, last_n-short, drop-append, drop-drop, drop_at,
  drop-nil, ltb_asym, ltb_mono, dec_beq, dec_beq_iff, discrete_eq, unique, unique_from, is_subset,
  Mem, mem-cons_self, mem-cons_of_mem, all-Mem, contains-Mem, find, find-Mem, all_intro, keep-Mem,
  contains_of_Mem, All-Mem, append-eq-nil, unique-eq-nil, eq-cases, if-elim, contains-unique_from,
}

-- Cloud privacy wants the authorisation of the request.
abbrev pub without_authority : Bool → String → String
without_authority cloud_authorized privacy =
    if (privacy == "cloud_allowed" || privacy == "cloud_required") && not cloud_authorized
    then "local_preferred"
    else privacy

-- `_capabilities`
unfoldable pub capabilities : TaskCategory → List ModelCapability
capabilities TaskCategory.simple_conversation =
    ModelCapability.general_chat ∷ ModelCapability.low_latency ∷ []
capabilities TaskCategory.voice_conversation =
    ModelCapability.general_chat ∷ ModelCapability.low_latency ∷ []
capabilities TaskCategory.classification =
    ModelCapability.low_latency ∷ ModelCapability.structured_output ∷ []
capabilities TaskCategory.coding = ModelCapability.coding ∷ []
capabilities TaskCategory.code_review = ModelCapability.coding ∷ ModelCapability.reasoning ∷ []
capabilities TaskCategory.debugging = ModelCapability.coding ∷ ModelCapability.reasoning ∷ []
capabilities TaskCategory.software_architecture =
    ModelCapability.reasoning ∷ ModelCapability.coding ∷ ModelCapability.long_context ∷ []
capabilities TaskCategory.complex_reasoning =
    ModelCapability.reasoning ∷ ModelCapability.high_reliability ∷ []
capabilities TaskCategory.long_context = ModelCapability.long_context ∷ []
capabilities TaskCategory.structured_extraction = ModelCapability.structured_output ∷ []
capabilities TaskCategory.research_synthesis =
    ModelCapability.reasoning ∷ ModelCapability.long_context ∷ []
capabilities TaskCategory.multilingual = ModelCapability.multilingual ∷ []
capabilities TaskCategory.vision = ModelCapability.vision ∷ []
capabilities TaskCategory.tool_planning =
    ModelCapability.reasoning ∷ ModelCapability.structured_output ∷ []
capabilities TaskCategory.private_document =
    ModelCapability.local_execution ∷ ModelCapability.long_context ∷ []
capabilities TaskCategory.summarization = ModelCapability.general_chat ∷ []
capabilities TaskCategory.creative_writing = ModelCapability.general_chat ∷ []
capabilities TaskCategory.system_command = ModelCapability.general_chat ∷ []
capabilities TaskCategory.safety_sensitive = ModelCapability.general_chat ∷ []
capabilities TaskCategory.unknown = ModelCapability.general_chat ∷ []

abbrev pub total_length : List String → ℕ
total_length [] = 0
total_length (text ∷ rest) = count text + total_length rest

-- metadata.get("source") == "voice"
abbrev pub from_voice : Option String → Bool
from_voice none = false
from_voice (some source) = source == "voice"

module _ (platform : Platform) where
  open platform use {
    LlmTaskType, intent_resolution, coding, planning, world_intelligence, vision, voice, retrieval,
    structured_extraction, summarization, tool_planning, creative, reasoning, conversation, general,
    lower,
  }

  -- mapping.get(task, UNKNOWN): the first member that the task is
  unfoldable pub mapped : LlmTaskType → List (LlmTaskType × TaskCategory) → TaskCategory
  mapped task [] = TaskCategory.unknown
  mapped task ((member, category) ∷ rest) =
      let later = mapped task rest in if is_task platform task member then category else later

  abbrev pub mapping : List (LlmTaskType × TaskCategory)
  mapping =
      (conversation, TaskCategory.simple_conversation)
      ∷ (general, TaskCategory.simple_conversation)
      ∷ (summarization, TaskCategory.summarization)
      ∷ (planning, TaskCategory.software_architecture)
      ∷ (reasoning, TaskCategory.complex_reasoning)
      ∷ (structured_extraction, TaskCategory.structured_extraction)
      ∷ (retrieval, TaskCategory.research_synthesis)
      ∷ (world_intelligence, TaskCategory.research_synthesis)
      ∷ (creative, TaskCategory.creative_writing)
      ∷ (vision, TaskCategory.vision)
      ∷ (tool_planning, TaskCategory.tool_planning)
      ∷ (intent_resolution, TaskCategory.classification)
      ∷ []

  -- `_category`
  unfoldable pub category : LlmTaskType → List LlmMessage → RequestMetadata → TaskCategory
  category task messages metadata =
      let text = join " " (map lower (contents messages)) in
      if from_voice metadata.source || is_task platform task voice
      then TaskCategory.voice_conversation
      else if is_in "long context" text
      then TaskCategory.long_context
      else if metadata.system_command
      then TaskCategory.system_command
      else if metadata.private_document
      then TaskCategory.private_document
      else if is_task platform task coding
      then (if is_in "review" text
          then TaskCategory.code_review
          else if has_keyword ("traceback" ∷ "debug" ∷ "bug" ∷ "failure" ∷ []) text
          then TaskCategory.debugging
          else TaskCategory.coding)
      else mapped task mapping

  -- `list(dict.fromkeys([*required, LOCAL_EXECUTION]))` for a request that stays here
  abbrev pub required_for : String → List ModelCapability → List ModelCapability
  required_for privacy required =
      if privacy == "local_only"
      then unique (required ++ ModelCapability.local_execution ∷ [])
      else required

  unfoldable pub classify : List LlmMessage → RequestMetadata → RouteClassification
  classify messages metadata =
      let task = classify_task platform messages metadata in
      let privacy =
        without_authority metadata.cloud_authorized (classify_privacy platform messages metadata) in
      let score = estimate platform messages task in
      let kind = category task messages metadata in
      record {
        task_category = kind;
        complexity = if leb 4 score then "high" else if leb 2 score then "medium" else "low";
        privacy = privacy;
        required_capabilities = required_for privacy (capabilities kind);
        latency_priority =
            if kind == TaskCategory.simple_conversation || kind == TaskCategory.voice_conversation
            then "interactive"
            else "balanced";
        quality_priority = if leb 4 score then "high" else "balanced";
        estimated_context_tokens = max 1 (total_length (contents messages) / 4);
      }
