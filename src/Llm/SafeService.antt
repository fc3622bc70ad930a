-- ===== src/Llm/SafeService.antt =====
-- The safe service of language models (src/jarvis_brain/llm/safe_llm_service.py). What jarvis_platform
-- finds in a text is a `Guards`; its adapters, the model router and the streams of providers are
-- arguments. IDs, times, temperatures, and the caller's own metadata are left out.
pub mod Sentences
pub mod Streaming
pub mod Heard
mod Examples
use jarvis_brain.Text.{strip, or_else, join}
use jarvis_brain.Llm.Names.{LlmProviderName}
use jarvis_brain.Llm.Providers.{LlmStatus}
use jarvis_brain.OmniRoute.Signals.{LlmMessage, contents}
use jarvis_brain.Llm.SafeService.Sentences.{complete_sentences}
use jarvis_brain.Prelude.{
  ℕ, zero, suc, ◌+◌, ◌-◌, ◌*◌, ◌/◌, ◌%◌, ◌≤◌, ◌<◌, min, max, String, ◌≡◌, refl, sym, ap, ◌∙◌, subst,
  ◌≢◌, ◌↔◌, ◌⊎◌, inl, inr, Bool, true, false, not, ◌&&◌, ◌||◌, Option, none, some, List, [], ◌∷◌,
  ◌++◌, map, reverse, arith, ltb, leb, nat_beq, if◌then◌else◌, ltb→lt, lt→ltb, le→ltb, leb→le,
  le→leb, nat_beq_iff, Bool-cases, Option-cases, Eq, ◌==◌, nat_eq, string_eq, pair_eq, length, drop,
  last_n, keep, All, any, all, length-append, length-drop, length-last_n, contains, get_or, eq_iff,
  eq_refl, list_cases, last_n-last_n-append, last_n-short, drop-append, drop-drop, drop_at,
  drop-nil, ltb_asym, ltb_mono, dec_beq, dec_beq_iff, discrete_eq, unique, unique_from, is_subset,
  Mem, mem-cons_self, mem-cons_of_mem, all-Mem, contains-Mem, find, find-Mem, all_intro, keep-Mem,
  contains_of_Mem, All-Mem, append-eq-nil, unique-eq-nil, eq-cases, if-elim, contains-unique_from,
  mem_keep, mem_second, holds-prop, All-append, contains-keep, contains-unique_from_eq,
  none-contained,
}

-- `inspect_text`
pub record Scan : Type 0 where
  pub has_secrets : Bool
  pub redacted_text : String

-- `enforce_output_policy`
pub record OutputPolicy : Type 0 where
  pub redacted_text : String
  pub blocked : Bool
  pub has_findings : Bool

pub record Guards : Type 0 where
  pub is_suspicious : String → Bool
  pub inspect_text : String → Scan
  pub enforce_output_policy : String → String → OutputPolicy

-- What the service reads of an answer, and what it says of it.
pub record SafeResponse : Type 0 where
  pub provider : LlmProviderName
  pub model : String
  pub task_type : String
  pub status : LlmStatus
  pub content : String
  pub error_message : Option String
  pub prompt_injection_detected : Bool
  pub secret_redacted : Bool
  pub output_redacted : Bool
  pub safe_sentence_count : ℕ

pub record SafeRequest : Type 0 where
  pub provider : LlmProviderName
  pub model : String
  pub task_type : String
  pub messages : List LlmMessage
  pub secret_redacted : Bool
  pub streaming : Bool

abbrev pub last_user_from : Option String → List LlmMessage → Option String
last_user_from found [] = found
last_user_from found (message ∷ rest) =
    last_user_from (if message.is_user then some message.content else found) rest

abbrev pub last_text_from : String → List LlmMessage → String
last_text_from text [] = text
last_text_from text (message ∷ rest) = last_text_from message.content rest

-- `_last_user_text`
unfoldable pub last_user_text : List LlmMessage → String
last_user_text messages = get_or (last_user_from none messages) (last_text_from "" messages)

pub data AdapterPrivacy : Type 0 where
  local local_preferred cloud_allowed cloud_required : AdapterPrivacy

-- `_adapter_privacy`
unfoldable pub adapter_privacy : String → AdapterPrivacy
adapter_privacy value =
    if value == "local_only" || value == "local"
    then local
    else if value == "cloud_allowed"
    then cloud_allowed
    else if value == "cloud_required"
    then cloud_required
    else local_preferred

abbrev pub refusal : String
refusal = "I cannot follow instructions that try to bypass safety or reveal secrets."

abbrev pub credentials_notice : String
credentials_notice =
    "I cannot display or repeat sensitive credentials. I can help you rotate or store them safely."

-- What a service knows of a call before it asks for an answer.
pub record Call : Type 0 where
  pub messages : List LlmMessage
  pub task_type : String
  pub selected_model : String
  pub provider : LlmProviderName

abbrev pub refused : Call → SafeResponse
refused call = record {
  provider = LlmProviderName.mock;
  model = call.selected_model;
  task_type = call.task_type;
  status = LlmStatus.success;
  content = refusal;
  error_message = none;
  prompt_injection_detected = true;
  secret_redacted = false;
  output_redacted = false;
  safe_sentence_count = 0;
}

-- What an adapter returns: its answer, or why there is none.
pub data AdapterResult : Type 0 where
  answered : LlmProviderName → LlmStatus → String → Option String → AdapterResult
  no_answer : Option String → AdapterResult

abbrev pub unchecked : SafeRequest → AdapterResult → SafeResponse
unchecked request (answered provider status content error_message) = record {
  provider = provider;
  model = request.model;
  task_type = request.task_type;
  status = status;
  content = content;
  error_message = error_message;
  prompt_injection_detected = false;
  secret_redacted = request.secret_redacted;
  output_redacted = false;
  safe_sentence_count = 0;
}
unchecked request (no_answer reason) = record {
  provider = request.provider;
  model = request.model;
  task_type = request.task_type;
  status = LlmStatus.error;
  content = "I could not reach an available language model safely.";
  error_message = some (get_or reason "No LLM adapter was available.");
  prompt_injection_detected = false;
  secret_redacted = request.secret_redacted;
  output_redacted = false;
  safe_sentence_count = 0;
}

-- A text of a model as it is shown.
abbrev pub shown : OutputPolicy → String
shown policy = if policy.blocked then credentials_notice else policy.redacted_text

module _ (guards : Guards) where
  open guards use {is_suspicious, inspect_text, enforce_output_policy}

  -- `_sanitize_messages`
  unfoldable pub sanitize_messages : List LlmMessage → List LlmMessage × Bool
  sanitize_messages [] = ([], false)
  sanitize_messages (message ∷ rest) =
      let scan = inspect_text message.content in
      let (sanitized, redacted) = sanitize_messages rest in
      (record message { content = scan.redacted_text } ∷ sanitized, scan.has_secrets || redacted)

  abbrev pub request_of : Call → Bool → SafeRequest
  request_of call streaming =
      let (sanitized, redacted) = sanitize_messages call.messages in
      record {
        provider = call.provider;
        model = call.selected_model;
        task_type = call.task_type;
        messages = sanitized;
        secret_redacted = redacted;
        streaming = streaming;
      }

  abbrev pub is_injection : Call → Bool
  is_injection call = is_suspicious (join " " (contents call.messages))

  abbrev pub checked : SafeResponse → SafeResponse
  checked response =
      let policy = enforce_output_policy "llm_response" response.content in
      record response { content = shown policy; output_redacted = policy.has_findings }

  -- `generate`: its answer, and the requests that it makes of the adapters
  unfoldable pub generate : (SafeRequest → AdapterResult) → Call → SafeResponse × List SafeRequest
  generate execute call =
      let request = request_of call false in
      if is_injection call
      then (refused call, [])
      else (checked (unchecked request (execute request)), request ∷ [])

  -- `_emit_safe_sentence`: what the callback hears of a sentence
  unfoldable pub emit_safe_sentence : String → List String
  emit_safe_sentence sentence =
      let normalized = strip sentence in
      let policy = enforce_output_policy "llm_stream_sentence" normalized in
      let safe = strip policy.redacted_text in
      if normalized == "" || (policy.blocked || safe == "") then [] else safe ∷ []

  unfoldable pub emit_each : List String → List String
  emit_each [] = []
  emit_each (sentence ∷ rest) = emit_safe_sentence sentence ++ emit_each rest
