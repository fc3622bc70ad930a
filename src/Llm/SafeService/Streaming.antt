-- ===== src/Llm/SafeService/Streaming.antt =====
-- The streamed answers of the safe service
-- (src/jarvis_brain/llm/safe_llm_service.py, `generate_streaming`).
use Prim.Native.String.{◌++◌ as concat}
use jarvis_brain.Text.{strip, or_else}
use jarvis_brain.Llm.Names.{LlmProviderName}
use jarvis_brain.Llm.Providers.{LlmStatus}
use jarvis_brain.Llm.SafeService.{
  Guards, SafeRequest, SafeResponse, Call, refused, request_of, is_injection, shown,
  emit_safe_sentence, emit_each,
}
use jarvis_brain.Llm.SafeService.Sentences.{complete_sentences}
use jarvis_brain.Prelude.{
  String, Bool, true, false, not, ◌&&◌, Option, none, some, List, [], ◌∷◌, ◌++◌, if◌then◌else◌,
  ◌==◌, nat_eq, string_eq, pair_eq, length, get_or,
}

-- A provider's event. `done` has what its metadata says: the provider, where a name that the enumeration
-- does not know reads as `unknown`, and the model. `cancelled` stands for an event that comes when the
-- turn is cancelled.
pub data StreamItem : Type 0 where
  token : String → StreamItem
  done : Option LlmProviderName → String → StreamItem
  error : String → StreamItem
  other cancelled : StreamItem

pub record Streaming : Type 0 where
  pub raw_content : String
  pub pending_sentence : String
  pub heard : List String
  pub stream_error : Option String
  pub final_provider : LlmProviderName
  pub final_model : String

abbrev pub started : Call → Streaming
started call = record {
  raw_content = "";
  pending_sentence = "";
  heard = [];
  stream_error = none;
  final_provider = call.provider;
  final_model = call.selected_model;
}

module _ (guards : Guards) where
  -- A token goes on to the callback as far as it completes sentences.
  unfoldable pub take_token : String → Streaming → Streaming
  take_token text s =
      let (sentences, pending) = complete_sentences (concat s.pending_sentence text) in
      record s {
        raw_content = concat s.raw_content text;
        pending_sentence = pending;
        heard = s.heard ++ emit_each guards sentences;
      }

  -- The loop over the events: whether `raise_if_cancelled` ends it, and what was read.
  unfoldable pub read : Call → Streaming → List StreamItem → Bool × Streaming
  read call s [] = (false, s)
  read call s (cancelled ∷ later) = (true, s)
  read call s (token text ∷ later) =
      let skip = read call s later in
      let rest = read call (take_token text s) later in if text == "" then skip else rest
  read call s (done provider model ∷ later) =
      read call
        (record s {
          final_provider = get_or provider call.provider;
          final_model = or_else model call.selected_model;
        })
        later
  read call s (error message ∷ later) =
      (false, record s { stream_error = some (or_else message "LLM streaming failed.") })
  read call s (other ∷ later) = read call s later

  -- What was not spoken yet goes to the callback.
  abbrev pub flush : Streaming → Streaming
  flush s = record s { heard = s.heard ++ emit_safe_sentence guards s.pending_sentence }

  abbrev pub no_error : Option String → Bool
  no_error none = true
  no_error (some message) = false

  abbrev pub streamed : Call → Streaming → SafeResponse
  streamed call s =
      let request = request_of guards call true in
      let policy = guards.enforce_output_policy "llm_response" s.raw_content in
      let content = shown policy in
      record {
        provider = s.final_provider;
        model = s.final_model;
        task_type = call.task_type;
        status =
            if not (strip content == "") && no_error s.stream_error
            then LlmStatus.success
            else LlmStatus.error;
        content = content;
        error_message = s.stream_error;
        prompt_injection_detected = false;
        secret_redacted = request.secret_redacted;
        output_redacted = policy.has_findings;
        safe_sentence_count = length s.heard;
      }

  abbrev pub ended : Call → Bool × Streaming → List String × Option SafeResponse
  ended call (true, s) = (s.heard, none)
  ended call (false, s) = let flushed = flush s in (flushed.heard, some (streamed call flushed))

  -- `generate_streaming`: what the callback heard, and the answer unless the turn is cancelled
  unfoldable pub generate_streaming :
      (SafeRequest → List StreamItem) → Call → List String × Option SafeResponse
  generate_streaming stream call =
      if is_injection guards call
      then ([], some (refused call))
      else ended call (read call (started call) (stream (request_of guards call true)))
