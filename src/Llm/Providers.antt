-- ===== src/Llm/Providers.antt =====
-- The registry of providers (src/jarvis_brain/llm/provider_registry.py, llm_provider.py). A provider is
-- what it answers during one call of the router: `generate` gives the answer to the n-th attempt, and
-- `generate_stream` the events of its stream, where `raises` is an exception that leaves the stream, as on
-- a cancellation (openai_compatible_provider.py). A `generate` is taken to turn its errors into answers.
-- The factory that stands behind the name `ollama`, the mock provider and the gateway's client are
-- arguments; the factory may make a hosted provider (llm_provider_factory.py).
use mathlib.Core.Option
use jarvis_brain.OmniRoute.Schemas.{OmniRouteRoute}
use jarvis_brain.OmniRoute.Registry.{OmniRouteRouteRegistry, find_model, is_operator_approved}
use jarvis_brain.Llm.Names.{LlmProviderName, name_eq}
use jarvis_brain.Prelude.{
  String, ℕ, Bool, Option, none, some, List, [], ◌∷◌, if◌then◌else◌, nat_eq, string_eq, pair_eq,
}

pub data LlmStatus : Type 0 where
  success error disabled : LlmStatus

pub data StreamEvent : Type 0 where
  token : String → StreamEvent
  done : StreamEvent
  error : StreamEvent
  other : StreamEvent
  raises : StreamEvent

-- `Q` is the request, `R` the response.
module _ (Q R : Type 0) where
  pub record LlmProvider : Type 0 where
    pub name : LlmProviderName
    pub is_available : Bool
    pub generate : Q → ℕ → R
    pub generate_stream : Q → List StreamEvent

  pub record LlmProviderRegistry : Type 0 where
    pub mock_provider : LlmProvider
    pub provider_factory : String → LlmProvider
    pub gateway_provider : OmniRouteRoute → LlmProvider
    pub omniroute_registry : OmniRouteRouteRegistry

  -- The route of a model, if the operator approved it.
  unfoldable pub approved_model :
      OmniRouteRouteRegistry → Option OmniRouteRoute → Option OmniRouteRoute
  approved_model registry none = none
  approved_model registry (some route) =
      if is_operator_approved registry.settings route then some route else none

  unfoldable pub create_provider :
      LlmProviderRegistry → LlmProviderName → String → Option LlmProvider
  create_provider registry LlmProviderName.mock model = some registry.mock_provider
  create_provider registry LlmProviderName.ollama model = some (registry.provider_factory model)
  create_provider registry LlmProviderName.omniroute model =
      Option.map registry.gateway_provider
        (approved_model registry.omniroute_registry (find_model registry.omniroute_registry model))
  create_provider registry LlmProviderName.openai model = none
  create_provider registry LlmProviderName.anthropic model = none
  create_provider registry LlmProviderName.gemini model = none
  create_provider registry LlmProviderName.airllm model = none
  create_provider registry LlmProviderName.llama_cpp model = none
  create_provider registry LlmProviderName.lm_studio model = none
  create_provider registry LlmProviderName.vllm model = none
  create_provider registry LlmProviderName.unknown model = none

abbrev pub list_provider_names : List LlmProviderName
list_provider_names =
    LlmProviderName.mock ∷ LlmProviderName.ollama ∷ LlmProviderName.openai
    ∷ LlmProviderName.anthropic ∷ LlmProviderName.gemini ∷ LlmProviderName.airllm
    ∷ LlmProviderName.llama_cpp ∷ LlmProviderName.lm_studio ∷ LlmProviderName.vllm
    ∷ LlmProviderName.omniroute ∷ []
