-- ===== src/Orchestrator/Intents.antt =====
-- The intents of the engine and those of the orchestration
-- (src/jarvis_brain/orchestrator/brain_orchestrator.py).
use jarvis_brain.Orchestrator.{
  BrainIntentType, coding, research, world, memory, vision, voice, execution, automation, planning,
  approval, calendar, conversation, chat, system, unknown, other,
}
use jarvis_brain.Prelude.{String, ◌||◌, if◌then◌else◌, ◌==◌, nat_eq, string_eq, pair_eq}

-- `_brain_intent_type`
unfoldable pub brain_intent_type : String → BrainIntentType
brain_intent_type legacy =
    if legacy == "world_intelligence"
    then world
    else if legacy == "coding_help"
    then coding
    else if legacy == "universal_knowledge"
    then research
    else if legacy == "plan" || legacy == "goal"
    then planning
    else if legacy == "approval_response"
        || (legacy == "approval_confirm" || legacy == "approval_reject")
    then approval
    else if legacy == "calendar"
    then calendar
    else if legacy == "task"
    then automation
    else if legacy == "voice"
    then voice
    else if legacy == "vision"
    then vision
    else if legacy == "general_question"
    then conversation
    else unknown

-- `_legacy_intent_type`; `value_of` is the value of a member.
unfoldable pub legacy_intent_type : (BrainIntentType → String) → BrainIntentType → String
legacy_intent_type value_of world = "world_intelligence"
legacy_intent_type value_of coding = "coding_help"
legacy_intent_type value_of research = "universal_knowledge"
legacy_intent_type value_of planning = "plan"
legacy_intent_type value_of approval = "approval_response"
legacy_intent_type value_of calendar = "calendar"
legacy_intent_type value_of voice = "voice"
legacy_intent_type value_of vision = "vision"
legacy_intent_type value_of conversation = "general_question"
legacy_intent_type value_of chat = "general_question"
legacy_intent_type value_of system = "system"
legacy_intent_type value_of execution = "action"
legacy_intent_type value_of automation = "task"
legacy_intent_type value_of memory = value_of memory
legacy_intent_type value_of unknown = value_of unknown
legacy_intent_type value_of (other name) = value_of (other name)
