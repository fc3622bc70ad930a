-- ===== src/Llm/SafeService/Examples.antt =====
-- A service whose policy blocks the texts that hold "pw".
use Prim.Native.String.{◌++◌ as concat}
use jarvis_brain.Text.{is_in, starts_with, join, is_space, lstrip, rstrip}
use jarvis_brain.Llm.Names.{LlmProviderName}
use jarvis_brain.Llm.SafeService.{
  Guards, SafeRequest, Call, request_of, is_injection, emit_each, emit_safe_sentence,
}
use jarvis_brain.Llm.SafeService.Sentences.{sentences_from, squeeze, said, sentences_from-said}
use jarvis_brain.Llm.SafeService.Streaming.{
  StreamItem, token, done, generate_streaming, read, take_token,
}
use jarvis_brain.Llm.SafeService.Heard.{told_text, IsSafe, IsShown, generate_streaming-IsShown}
use jarvis_brain.Prelude.{
  String, ◌≡◌, refl, true, false, none, List, [], ◌∷◌, nat_eq, string_eq, pair_eq, All, contains,
}

abbrev watchful : Guards
watchful = record {
  is_suspicious = λ text. is_in "ignore" text;
  inspect_text = λ text. record { has_secrets = is_in "pw" text; redacted_text = text };
  enforce_output_policy = λ context text. record {
    redacted_text = text;
    blocked = is_in "pw" text;
    has_findings = is_in "pw" text;
  };
}

abbrev question : Call
question = record {
  messages = record { is_user = true; content = "hi" } ∷ [];
  task_type = "general";
  selected_model = "small";
  provider = LlmProviderName.ollama;
}

abbrev tokens : SafeRequest → List StreamItem
tokens request = token "Hello the" ∷ token "re. My pw" ∷ token " is x. Bye" ∷ done none "" ∷ []

question_clean : is_injection watchful question ≡ false
unfolding is_in starts_with join
question_clean = refl

generate_streaming-IsShown_example :
    let text = told_text (tokens (request_of watchful question true)) in
    let run = generate_streaming watchful tokens question in
    All (IsSafe watchful) run.0
    × ((offered : List String) × ((run.0 ≡ emit_each watchful offered)
          × IsShown watchful text offered run.0 run.1))
generate_streaming-IsShown_example =
    generate_streaming-IsShown watchful question tokens question_clean

sentences_from-said_example : said (sentences_from "" "A. b") ≡ concat (squeeze "") (squeeze "A. b")
sentences_from-said_example = sentences_from-said "" "A. b"

secret_kept : (generate_streaming watchful tokens question).0 ≡ "Hello there." ∷ "Bye" ∷ []
unfolding generate_streaming read take_token sentences_from is_in starts_with join emit_each
    emit_safe_sentence is_space lstrip rstrip contains
secret_kept = refl
