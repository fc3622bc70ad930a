-- ===== src/Llm/ModelRouter.antt =====
-- The local model for a task (src/jarvis_brain/llm/llm_model_router.py). `is_word` tells the characters
-- that Python's `\w` matches, `lower` is `str.lower`, and `task_of` reads the value of a member of
-- jarvis_platform's LLMTaskType.
pub mod Words
mod Examples
use Prim.Native.Char.{Char, code}
use jarvis_brain.Text.{is_in}
use jarvis_brain.Prelude.{
  ℕ, zero, suc, ◌+◌, ◌-◌, ◌*◌, ◌/◌, ◌%◌, ◌≤◌, ◌<◌, min, max, String, ◌≡◌, refl, sym, ap, ◌∙◌, subst,
  ◌≢◌, ◌↔◌, ◌⊎◌, inl, inr, Bool, true, false, not, ◌&&◌, ◌||◌, Option, none, some, List, [], ◌∷◌,
  ◌++◌, map, reverse, arith, ltb, leb, nat_beq, if◌then◌else◌, ltb→lt, lt→ltb, le→ltb, leb→le,
  le→leb, nat_beq_iff, Bool-cases, Option-cases, Eq, ◌==◌, nat_eq, string_eq, pair_eq, length, drop,
  last_n, keep, All, any, all, length-append, length-drop, length-last_n, contains, get_or, eq_iff,
  eq_refl, list_cases, last_n-last_n-append, last_n-short, drop-append, drop-drop, drop_at,
  drop-nil, ltb_asym, ltb_mono, dec_beq, dec_beq_iff, discrete_eq, unique, unique_from, is_subset,
  Mem, mem-cons_self, mem-cons_of_mem, all-Mem, contains-Mem, find, find-Mem, all_intro, keep-Mem,
  contains_of_Mem, All-Mem, append-eq-nil, unique-eq-nil, eq-cases, if-elim, contains-unique_from,
  mem_keep, mem_second, holds-prop, All-append, contains-keep, contains-unique_from_eq,
  none-contained,
}

pub data LlmTaskType : Type 0 where
  coding planning summarization intent_resolution guidance general : LlmTaskType
  structured_extraction unknown : LlmTaskType
  other : String → LlmTaskType

-- metadata.get("task_type")
pub data Override : Type 0 where
  no_override : Override
  member : LlmTaskType → Override
  value : String → Override

pub record LlmModelRouter : Type 0 where
  pub general_model : String
  pub coding_model : String
  pub classification_model : String
  pub default_model : String

module _ (is_word : Char → Bool) where
  -- (?!\w) at the start of a text
  unfoldable pub starts_word : String → Bool
  starts_word String.[] = false
  starts_word (String.◌∷◌ c s) = is_word c

  -- The keyword and then no character of a word.
  unfoldable pub matches_word : String → String → Bool
  matches_word text String.[] = not (starts_word text)
  matches_word String.[] (String.◌∷◌ k keyword) = false
  matches_word (String.◌∷◌ c text) (String.◌∷◌ k keyword) =
      let rest = matches_word text keyword in nat_beq (code c) (code k) && rest

  -- The search from a place on, where `before` tells whether a character of a word stands before it.
  unfoldable pub search_from : Bool → String → String → Bool
  search_from before String.[] keyword = not before && matches_word String.[] keyword
  search_from before (String.◌∷◌ c text) keyword =
      let later = search_from (is_word c) text keyword in
      (not before && matches_word (String.◌∷◌ c text) keyword) || later

  -- `_contains_keyword`
  abbrev pub contains_keyword : String → String → Bool
  contains_keyword text keyword = search_from false text keyword

  abbrev pub coding_keywords : List String
  coding_keywords =
      "code" ∷ "python" ∷ "javascript" ∷ "java" ∷ "fastapi" ∷ "react" ∷ "docker" ∷ "kubernetes"
      ∷ "sql" ∷ "traceback" ∷ "error" ∷ "exception" ∷ "repository" ∷ "repo" ∷ "function" ∷ "class"
      ∷ "pytest" ∷ "bug" ∷ "api endpoint" ∷ "alembic" ∷ "sqlalchemy" ∷ []

  abbrev pub has_any : List String → String → Bool
  has_any keywords text = any (λ keyword. is_in keyword text) keywords

  unfoldable pub detected : String → LlmTaskType
  detected text =
      if any (contains_keyword text) coding_keywords
      then coding
      else if has_any ("plan" ∷ "roadmap" ∷ "steps" ∷ "architecture" ∷ "design" ∷ []) text
      then planning
      else if has_any ("summarize" ∷ "summary" ∷ "explain this text" ∷ []) text
      then summarization
      else if has_any ("classify" ∷ "extract fields" ∷ "detect intent" ∷ []) text
      then intent_resolution
      else if has_any ("how do i" ∷ "troubleshoot" ∷ "fix" ∷ "guide me" ∷ "step by step" ∷ []) text
      then guidance
      else general

  unfoldable pub detect_task_type :
      (String → String) → (String → Option LlmTaskType) → String → Override → LlmTaskType
  detect_task_type lower task_of text no_override = detected (lower text)
  detect_task_type lower task_of text (member task) = task
  detect_task_type lower task_of text (value name) = get_or (task_of name) unknown

unfoldable pub select_model : LlmModelRouter → LlmTaskType → String
select_model router coding = router.coding_model
select_model router intent_resolution = router.classification_model
select_model router structured_extraction = router.classification_model
select_model router general = router.general_model
select_model router planning = router.general_model
select_model router summarization = router.general_model
select_model router guidance = router.general_model
select_model router unknown = router.default_model
select_model router (other name) = router.default_model

module _ (is_word : Char → Bool) where
  -- `route`
  unfoldable pub route :
      (String → String)
      → (String → Option LlmTaskType)
      → LlmModelRouter
      → String
      → Override
      → LlmTaskType × String
  route lower task_of router text given =
      let task = detect_task_type is_word lower task_of text given in
      (task, select_model router task)
