-- ===== src/Llm/Names.antt =====
-- The names of providers: the members of jarvis_platform's LLMProviderName that the code names.
use jarvis_brain.Prelude.{Eq, discrete_eq, nat_eq, string_eq, pair_eq}

pub data LlmProviderName : Type 0 where
  mock ollama openai anthropic gemini airllm llama_cpp lm_studio vllm omniroute : LlmProviderName
  unknown : LlmProviderName

unfoldable pub name_discrete : Discrete LlmProviderName
name_discrete = hlevel

instance abbrev pub name_eq : Eq LlmProviderName
name_eq = discrete_eq name_discrete
