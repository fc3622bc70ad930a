-- ===== src/Llm/Router/Examples.antt =====
-- The router's theorems at a router with a local runtime, a mock provider and a gateway.
use jarvis_brain.Floats.{whole}
use jarvis_brain.Text.{is_in, starts_with, join}
use jarvis_brain.OmniRoute.Signals.{
  LlmMessage, classify_task, classify_privacy, joined_user_text, first_match,
}
use jarvis_brain.OmniRoute.Policy.Examples.{both}
use jarvis_brain.OmniRoute.Classifier.Examples.{names, secret, secret_found, hello, chat}
use jarvis_brain.Llm.Names.{LlmProviderName, name_discrete, name_eq}
use jarvis_brain.Llm.Models.Examples.{models}
use jarvis_brain.Llm.Providers.{LlmStatus, StreamEvent, create_provider}
use jarvis_brain.Llm.Router.{
  LlmRouterConfig, LlmRequest, LlmResponse, Provider, Registry, RoutedRequest, IntelligenceRouter,
  local_providers, facts_of, chain_of, fallback_chain, privacy_allows, dedupe_from,
}
use jarvis_brain.Llm.Router.Chain.{fallback_chain_iff, candidates, IsDistinct}
use jarvis_brain.Llm.Router.Generate.{selection_of, generate, succeeded}
use jarvis_brain.Llm.Router.Answers.{
  IsSealed, Answers, made_for, generate-succeeded, generate-IsSealed,
}
use jarvis_brain.Llm.Router.Places.{StaysHere, generate-StaysHere}
use jarvis_brain.Llm.Router.Stream.{generate_stream, candidates_of, direct_candidates}
use jarvis_brain.Llm.Router.Stream.Endings.{is_ended, generate_stream_ended}
use jarvis_brain.Llm.Router.Stream.Exceptions.{IsBlamed}
use jarvis_brain.Llm.Router.Stream.Sources.{
  AllSayEnd, FromOne, texts_of, says_end, generate_stream-FromOne,
}
use jarvis_brain.Llm.Router.Stream.Places.{generate_stream-StaysHere}
use jarvis_brain.Prelude.{
  ℕ, zero, suc, ◌≡◌, refl, ◌≢◌, ◌↔◌, true, false, none, some, List, [], ◌∷◌, arith, nat_eq,
  string_eq, pair_eq, keep, All, any, contains, Mem, contains-Mem,
}

abbrev answer : LlmProviderName → LlmStatus → RoutedRequest names whole → LlmResponse names whole
answer name status request = record {
  provider = name;
  model = request.model;
  task_type = "conversation";
  status = status;
  content = "an answer";
  error_message = none;
  router_decision = none;
  tools_allowed = none;
}

abbrev at_second : ℕ → LlmStatus
at_second zero = LlmStatus.error
at_second (suc n) = LlmStatus.success

-- It answers at its second attempt, and its stream is `events`.
abbrev slow : LlmProviderName → List StreamEvent → Provider names whole
slow name events = record {
  name = name;
  is_available = true;
  generate = λ request n. answer name (at_second n) request;
  generate_stream = λ request. events;
}

abbrev registry : List StreamEvent → Registry names whole
registry events = record {
  mock_provider = slow LlmProviderName.mock events;
  provider_factory = λ model. slow LlmProviderName.ollama events;
  gateway_provider = λ route. slow LlmProviderName.omniroute events;
  omniroute_registry = both.registry;
}

abbrev local_chain : List LlmProviderName
local_chain = LlmProviderName.ollama ∷ LlmProviderName.mock ∷ []

abbrev config : LlmRouterConfig
config = record {
  retry_count = 1;
  coding_chain = LlmProviderName.openai ∷ local_chain;
  reasoning_chain = local_chain;
  simple_chain = local_chain;
}

abbrev pub router : List StreamEvent → IntelligenceRouter names whole
router events = record {
  config = config;
  models = models;
  provider_registry = registry events;
  omniroute_policy = both;
  streaming_enabled = true;
  provider_value = λ name. "provider";
  task_value = λ task. task;
}

abbrev pub closed : List StreamEvent
closed = StreamEvent.token "hi" ∷ StreamEvent.done ∷ []

abbrev pub asks : List LlmMessage → LlmRequest
asks messages = record {
  request_id = "r";
  provider = LlmProviderName.openai;
  messages = messages;
  metadata = chat none true;
}

fallback_chain_iff_example :
    IsDistinct (fallback_chain names config "coding" "local_only" LlmProviderName.openai)
    × ((name : LlmProviderName)
        → (contains (fallback_chain names config "coding" "local_only" LlmProviderName.openai) name
            ≡ true)
          ↔ ((contains (candidates names config "coding" "local_only" LlmProviderName.openai) name
                ≡ true)
              × (privacy_allows names "local_only" name ≡ true)
              × (name ≢ LlmProviderName.unknown)))
    × ("local_only" ≡ names.local_only
        → (name : LlmProviderName)
        → Mem name (fallback_chain names config "coding" "local_only" LlmProviderName.openai)
        → Mem name local_providers)
fallback_chain_iff_example =
    fallback_chain_iff names config "coding" "local_only" LlmProviderName.openai

generate-IsSealed_example :
    IsSealed names whole (generate names whole (router closed) (asks hello)).0
generate-IsSealed_example = generate-IsSealed names whole (router closed) (asks hello)

mock-Answers : Answers names whole (router closed) (slow LlmProviderName.mock closed)
mock-Answers = record { available = refl; turn = 1; early = omega arith; good = λ request. refl }

mock_listed :
    contains
      (chain_of names whole (router closed) (facts_of names whole (asks secret)))
      LlmProviderName.mock
    ≡ true
unfolding contains fallback_chain dedupe_from keep privacy_allows name_discrete facts_of
    classify_task classify_privacy joined_user_text first_match any is_in starts_with join
mock_listed = refl

mock_made :
    made_for names whole (router closed) (facts_of names whole (asks secret)) LlmProviderName.mock
    ≡ some (slow LlmProviderName.mock closed)
unfolding create_provider
mock_made = refl

generate-succeeded_example :
    succeeded names whole (generate names whole (router closed) (asks secret)).0 ≡ true
generate-succeeded_example =
    generate-succeeded names whole (router closed) (asks secret) LlmProviderName.mock
      (slow LlmProviderName.mock closed) (contains-Mem _ LlmProviderName.mock mock_listed) mock_made
      mock-Answers

generate-StaysHere_example :
    All
      (StaysHere names whole (router closed))
      (generate names whole (router closed) (asks secret)).1
generate-StaysHere_example =
    generate-StaysHere names whole (router closed) (asks secret) refl refl secret_found

generate_stream-StaysHere_example :
    All
      (StaysHere names whole (router closed))
      (generate_stream names whole (router closed) (asks secret)).1
generate_stream-StaysHere_example =
    generate_stream-StaysHere names whole (router closed) (asks secret) refl refl secret_found

generate_stream_ended_example :
    let facts = facts_of names whole (asks hello) in
    let output = (generate_stream names whole (router closed) (asks hello)).0 in
    (is_ended names whole output ≡ true)
    × IsBlamed names whole
        (candidates_of names whole
          (router closed)
          facts
          (selection_of names whole (router closed) facts))
        output
generate_stream_ended_example = generate_stream_ended names whole (router closed) (asks hello)

abbrev quiet : IntelligenceRouter names whole
quiet = record (router closed) { streaming_enabled = false }

quiet_ends : AllSayEnd names whole quiet (
    candidates_of names whole quiet
      (facts_of names whole (asks hello))
      (selection_of names whole quiet (facts_of names whole (asks hello))))
unfolding contains fallback_chain dedupe_from keep privacy_allows name_discrete facts_of
    classify_task classify_privacy joined_user_text first_match any is_in starts_with join
    direct_candidates create_provider says_end
quiet_ends = (λ request. refl, (λ request. refl, tt))

generate_stream-FromOne_example :
    FromOne names whole quiet
      (candidates_of names whole quiet
        (facts_of names whole (asks hello))
        (selection_of names whole quiet (facts_of names whole (asks hello))))
      (texts_of names whole (generate_stream names whole quiet (asks hello)).0)
generate_stream-FromOne_example = generate_stream-FromOne names whole quiet (asks hello) quiet_ends
