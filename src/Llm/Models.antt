-- ===== src/Llm/Models.antt =====
-- The registry of models (src/jarvis_brain/llm/model_registry.py), over the task types of a `Platform`.
-- The names of models that the environment sets are arguments, and `all_tasks` is the list of the
-- members of LLMTaskType. Of a model's record the fields that the selection reads are kept.
pub mod Choice
pub mod Examples
use jarvis_brain.OmniRoute.Signals.{Platform}
use jarvis_brain.Llm.Names.{LlmProviderName, name_eq}
use jarvis_brain.Prelude.{
  String, ℕ, zero, suc, ◌+◌, ◌-◌, ◌*◌, ◌/◌, ◌%◌, ◌≤◌, ◌<◌, min, max, ◌≡◌, refl, sym, ap, ◌∙◌, subst,
  ◌≢◌, ◌↔◌, ◌⊎◌, inl, inr, Bool, true, false, not, ◌&&◌, ◌||◌, Option, none, some, List, [], ◌∷◌,
  ◌++◌, map, reverse, arith, ltb, leb, nat_beq, if◌then◌else◌, ltb→lt, lt→ltb, le→ltb, leb→le,
  le→leb, nat_beq_iff, Bool-cases, Option-cases, Eq, ◌==◌, nat_eq, string_eq, pair_eq, length, drop,
  last_n, keep, All, any, all, length-append, length-drop, length-last_n, contains, get_or, eq_iff,
  eq_refl, list_cases, last_n-last_n-append, last_n-short, drop-append, drop-drop, drop_at,
  drop-nil, ltb_asym, ltb_mono, dec_beq, dec_beq_iff, discrete_eq, unique, unique_from, is_subset,
  Mem, mem-cons_self, mem-cons_of_mem, all-Mem, contains-Mem, find, find-Mem, all_intro, keep-Mem,
  contains_of_Mem, All-Mem, append-eq-nil, unique-eq-nil, eq-cases, if-elim, contains-unique_from,
  mem_keep, mem_second, holds-prop, All-append,
}

module _ (platform : Platform) where
  open platform use {
    LlmTaskType, task_eq, conversation, general, reasoning, planning, summarization, guidance,
    world_intelligence, coding, structured_extraction, tool_planning, intent_resolution,
  }

  pub record LlmModelCapability : Type 0 where
    pub model : String
    pub provider : LlmProviderName
    pub task_types : List LlmTaskType
    pub reasoning_score : ℕ
    pub coding_score : ℕ

  abbrev entry : String → LlmProviderName → List LlmTaskType → ℕ → ℕ → LlmModelCapability
  entry model provider task_types reasoning_score coding_score = record {
    model = model;
    provider = provider;
    task_types = task_types;
    reasoning_score = reasoning_score;
    coding_score = coding_score;
  }

  -- `__init__`
  unfoldable pub new_models : List LlmTaskType → String → String → String → List LlmModelCapability
  new_models all_tasks general_model coding_model classification_model =
      entry "mock-model" LlmProviderName.mock all_tasks 1 1
      ∷ entry general_model LlmProviderName.ollama
          (conversation ∷ general ∷ reasoning ∷ planning ∷ summarization ∷ guidance
            ∷ world_intelligence ∷ [])
          3 2
      ∷ entry coding_model LlmProviderName.ollama
          (coding ∷ structured_extraction ∷ tool_planning ∷ []) 2 4
      ∷ entry classification_model LlmProviderName.ollama
          (intent_resolution ∷ structured_extraction ∷ []) 2 3
      ∷ []

  abbrev pub is_of : LlmProviderName → LlmModelCapability → Bool
  is_of provider m = m.provider == provider

  -- model.provider == provider and task in model.task_types
  abbrev pub serves : LlmProviderName → LlmTaskType → LlmModelCapability → Bool
  serves provider task m = is_of provider m && contains ⦃e = task_eq⦄ m.task_types task

  -- `exact_candidates or [...]`
  abbrev pub or_general :
      List LlmModelCapability → List LlmModelCapability → List LlmModelCapability
  or_general [] general_candidates = general_candidates
  or_general (m ∷ rest) general_candidates = m ∷ rest

  -- The score that ranks the candidates for a task.
  abbrev pub score_for : LlmTaskType → LlmModelCapability → ℕ
  score_for task m = if task_eq.beq task coding then m.coding_score else m.reasoning_score

  -- max(candidates, key=…): the first of those with the highest score
  unfoldable pub max_by :
      (LlmModelCapability → ℕ) → LlmModelCapability → List LlmModelCapability → LlmModelCapability
  max_by key m [] = m
  max_by key m (other ∷ rest) = max_by key (if ltb (key m) (key other) then other else m) rest

  abbrev pub name_or_mock : Option LlmModelCapability → String
  name_or_mock none = "mock-model"
  name_or_mock (some m) = m.model

  -- The choice among the candidates, where `fallback` is the provider's first model.
  abbrev pub choose :
      LlmTaskType → Option LlmModelCapability → List LlmModelCapability → Option LlmModelCapability
  choose task fallback [] = fallback
  choose task fallback (m ∷ rest) = some (max_by (score_for task) m rest)

  -- `select_model`, with the record whose name it returns
  unfoldable pub chosen_model :
      List LlmModelCapability → LlmProviderName → LlmTaskType → Option LlmModelCapability
  chosen_model models provider task =
      choose task (find (is_of provider) models)
        (or_general (keep (serves provider task) models) (keep (serves provider general) models))

  unfoldable pub select_model : List LlmModelCapability → LlmProviderName → LlmTaskType → String
  select_model models provider task = name_or_mock (chosen_model models provider task)
