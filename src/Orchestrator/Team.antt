-- ===== src/Orchestrator/Team.antt =====
-- Teams of specialists and abstract capabilities
-- (src/jarvis_brain/orchestrator/agent_team_builder.py and capability_registry.py). `normalized` is
-- strip().lower().
use jarvis_brain.Text.{sorted_texts}
use jarvis_brain.Orchestrator.{
  BrainIntentType, coding, research, world, memory, vision, voice, execution, automation, planning,
  has_intent,
}
use jarvis_brain.Prelude.{
  String, Bool, not, ◌&&◌, ◌||◌, List, [], ◌∷◌, ◌++◌, if◌then◌else◌, nat_eq, string_eq, pair_eq,
  contains, unique,
}

abbrev pub allowed_roles : List String
allowed_roles =
    "planner" ∷ "researcher" ∷ "coder" ∷ "security" ∷ "memory" ∷ "world" ∷ "vision" ∷ "voice"
    ∷ "integration" ∷ "reviewer" ∷ "executor" ∷ "reflection" ∷ []

-- The loop of `_dedupe_allowed`; `result` are the roles so far.
unfoldable pub dedupe_allowed : (String → String) → List String → List String → List String
dedupe_allowed normalized result [] = result
dedupe_allowed normalized result (role ∷ roles) =
    let name = normalized role in
    let kept = dedupe_allowed normalized (result ++ name ∷ []) roles in
    let rest = dedupe_allowed normalized result roles in
    if contains allowed_roles name && not (contains result name) then kept else rest

abbrev pub added : Bool → List String → List String
added present names = if present then names else []

abbrev pub roles_for : List BrainIntentType → List String
roles_for intents =
    "planner" ∷ added (has_intent coding intents) ("coder" ∷ "reviewer" ∷ [])
    ++ added (has_intent research intents) ("researcher" ∷ [])
    ++ added (has_intent world intents) ("world" ∷ [])
    ++ added (has_intent memory intents) ("memory" ∷ [])
    ++ added (has_intent vision intents) ("vision" ∷ [])
    ++ added (has_intent voice intents) ("voice" ∷ [])
    ++ added (has_intent execution intents || has_intent automation intents)
        ("security" ∷ "executor" ∷ [])

unfoldable pub propose_from_intents : (String → String) → List BrainIntentType → List String
propose_from_intents normalized intents = dedupe_allowed normalized [] (roles_for intents)

-- sorted(capabilities, ...), of the values of a set
unfoldable pub capabilities_for_intents : List BrainIntentType → List String
capabilities_for_intents intents = sorted_texts (
    unique (
      "text_generation"
        ∷ "json"
        ∷ added (has_intent coding intents) ("code_generation" ∷ "reasoning" ∷ [])
      ++ added (has_intent planning intents) ("reasoning" ∷ [])
      ++ added (has_intent vision intents) ("vision" ∷ "image_understanding" ∷ [])
      ++ added (has_intent voice intents) ("speech" ∷ [])
      ++ added (has_intent research intents || has_intent world intents) ("long_context" ∷ [])
      ++ added (has_intent execution intents || has_intent automation intents)
          ("tool_calling" ∷ [])))
