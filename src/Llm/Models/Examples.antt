-- ===== src/Llm/Models/Examples.antt =====
-- The registry of models at a platform whose task types are known by their names.
use jarvis_brain.OmniRoute.Classifier.Examples.{names}
use jarvis_brain.Llm.Names.{LlmProviderName, name_discrete}
use jarvis_brain.Llm.Models.{LlmModelCapability, new_models, max_by, chosen_model}
use jarvis_brain.Llm.Models.Choice.{IsBest, chosen_model-IsBest}
use jarvis_brain.Prelude.{
  ◌≡◌, refl, some, List, [], ◌∷◌, nat_eq, string_eq, pair_eq, keep, contains, find,
}

abbrev pub models : List (LlmModelCapability names)
models = new_models names ("coding" ∷ "general" ∷ []) "llama" "coder" "small"

abbrev coder : LlmModelCapability names
coder = record {
  model = "coder";
  provider = LlmProviderName.ollama;
  task_types = "coding" ∷ "structured_extraction" ∷ "tool_planning" ∷ [];
  reasoning_score = 2;
  coding_score = 4;
}

coder_chosen : chosen_model names models LlmProviderName.ollama "coding" ≡ some coder
unfolding chosen_model new_models max_by keep find contains name_discrete
coder_chosen = refl

chosen_model-IsBest_example : IsBest names models LlmProviderName.ollama "coding" coder
chosen_model-IsBest_example =
    chosen_model-IsBest names models LlmProviderName.ollama "coding" coder coder_chosen
