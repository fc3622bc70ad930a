-- ===== src/Orchestrator.antt =====
-- The orchestration of a request by a language model (src/jarvis_brain/orchestrator). `I` are the members
-- of jarvis_platform's BrainIntentType, of which the code names some; capabilities are known by their
-- values.
pub mod Graph
pub mod Team
pub mod Verification
pub mod Intents
pub mod Orchestrate
pub mod Forward
pub mod Vetted
mod Examples
use jarvis_brain.Floats.{Floats}
use jarvis_brain.Prelude.{
  ℕ, zero, suc, ◌+◌, ◌-◌, ◌*◌, ◌/◌, ◌%◌, ◌≤◌, ◌<◌, min, max, String, ◌≡◌, refl, sym, ap, ◌∙◌, subst,
  ◌≢◌, ◌↔◌, ◌⊎◌, inl, inr, Bool, true, false, not, ◌&&◌, ◌||◌, Option, none, some, List, [], ◌∷◌,
  ◌++◌, map, reverse, arith, ltb, leb, nat_beq, if◌then◌else◌, ltb→lt, lt→ltb, le→ltb, leb→le,
  le→leb, nat_beq_iff, Bool-cases, Option-cases, Eq, ◌==◌, nat_eq, string_eq, pair_eq, length, drop,
  last_n, keep, All, any, all, length-append, length-drop, length-last_n, contains, get_or, eq_iff,
  eq_refl, list_cases, last_n-last_n-append, last_n-short, drop-append, drop-drop, drop_at,
  drop-nil, ltb_asym, ltb_mono, dec_beq, dec_beq_iff, discrete_eq, unique, unique_from, is_subset,
  Mem, mem-cons_self, mem-cons_of_mem, all-Mem, contains-Mem, find, find-Mem, all_intro, keep-Mem,
  contains_of_Mem, All-Mem, append-eq-nil, unique-eq-nil, eq-cases, if-elim, contains-unique_from,
  mem_keep, mem_second, holds-prop, All-append, contains-keep, contains-unique_from_eq,
  none-contained,
}

-- The members of BrainIntentType that the code names.
pub data BrainIntentType : Type 0 where
  coding research world memory vision voice execution automation : BrainIntentType
  planning approval calendar conversation chat system unknown : BrainIntentType
  other : String → BrainIntentType

abbrev pub intent_code : BrainIntentType → ℕ × String
intent_code coding = (0, "")
intent_code research = (1, "")
intent_code world = (2, "")
intent_code memory = (3, "")
intent_code vision = (4, "")
intent_code voice = (5, "")
intent_code execution = (6, "")
intent_code automation = (7, "")
intent_code planning = (8, "")
intent_code approval = (9, "")
intent_code calendar = (10, "")
intent_code conversation = (11, "")
intent_code chat = (12, "")
intent_code system = (13, "")
intent_code unknown = (14, "")
intent_code (other value) = (15, value)

-- intent in intents
unfoldable pub has_intent : BrainIntentType → List BrainIntentType → Bool
has_intent intent [] = false
has_intent intent (found ∷ rest) =
    let later = has_intent intent rest in
    ((intent_code intent).0 == (intent_code found).0
      && (intent_code intent).1 == (intent_code found).1)
    || later

pub record BrainPlanStep : Type 0 where
  pub step_id : String
  pub title : String
  pub description : String
  pub node_type : String
  pub action : Option String
  pub target : Option String
  pub requires_approval : Bool
  pub depends_on : List String

pub record BrainToolProposal : Type 0 where
  pub action : String
  pub target : Option String

module _ (fl : Floats) where
  pub record BrainIntentCandidate : Type 0 where
    pub intent_type : BrainIntentType
    pub action : String
    pub target : Option String
    pub goal : Option String
    pub confidence : fl.Float
    pub needs_clarification : Bool

  pub record BrainOrchestratorProposal : Type 0 where
    pub summary : String
    pub response_strategy : String
    pub intents : List BrainIntentCandidate
    pub plan_steps : List BrainPlanStep
    pub tool_proposals : List BrainToolProposal
    pub agent_roles : List String
    pub capabilities : List String
    pub confidence : fl.Float
