-- ===== src/World/Relevance.antt =====
-- The relevance of a world event (src/jarvis_brain/world/relevance_scorer.py). A `World` holds what
-- belongs to jarvis_platform and to Unicode; the numbers are those of a `Floats`.
pub mod Range
mod Examples
use Prim.Native.Char.{code}
use Prim.Native.String.{◌++◌ as concat, compare}
use text.Mathlib.Text.{is_lt}
use jarvis_brain.Floats.{Floats, float_min, float_max}
use jarvis_brain.Text.{strip, is_in, is_space, join}
use jarvis_brain.Prelude.{
  String, ℕ, zero, suc, ◌+◌, ◌-◌, ◌*◌, ◌/◌, ◌%◌, ◌≤◌, ◌<◌, min, max, ◌≡◌, refl, sym, ap, ◌∙◌, subst,
  ◌≢◌, ◌↔◌, ◌⊎◌, inl, inr, Bool, true, false, not, ◌&&◌, ◌||◌, Option, none, some, List, [], ◌∷◌,
  ◌++◌, map, reverse, arith, ltb, leb, nat_beq, if◌then◌else◌, ltb→lt, lt→ltb, le→ltb, leb→le,
  le→leb, nat_beq_iff, Bool-cases, Option-cases, Eq, ◌==◌, nat_eq, string_eq, pair_eq, length, drop,
  last_n, keep, All, any, all, length-append, length-drop, length-last_n, contains, get_or, eq_iff,
  eq_refl, list_cases, last_n-last_n-append, last_n-short, drop-append, drop-drop, drop_at,
  drop-nil, ltb_asym, ltb_mono, dec_beq, dec_beq_iff, discrete_eq, unique, unique_from, is_subset,
  Mem, mem-cons_self, mem-cons_of_mem, all-Mem, contains-Mem, find, find-Mem, all_intro, keep-Mem,
  contains_of_Mem, All-Mem, append-eq-nil, unique-eq-nil, eq-cases, if-elim, contains-unique_from,
}

-- The members of the three enumerations of jarvis_platform that the code names, with any other.
pub data WorldEventCategory : Type 0 where
  cybersecurity ai_research technology finance markets weather aviation : WorldEventCategory
  geopolitics energy news : WorldEventCategory
  other_category : String → WorldEventCategory

pub data WorldEventSeverity : Type 0 where
  high critical : WorldEventSeverity
  other_severity : String → WorldEventSeverity

pub data VerificationStatus : Type 0 where
  disputed refuted multi_source trusted_source : VerificationStatus
  other_status : String → VerificationStatus

-- Their texts (`.value`), and `str.lower`.
pub record World : Type 0 where
  pub category_value : WorldEventCategory → String
  pub severity_value : WorldEventSeverity → String
  pub lower : String → String

abbrev pub is_severe : WorldEventSeverity → Bool
is_severe high = true
is_severe critical = true
is_severe (other_severity s) = false

abbrev pub is_critical : WorldEventSeverity → Bool
is_critical high = false
is_critical critical = true
is_critical (other_severity s) = false

-- set & set is not empty
abbrev pub meets : List String → List String → Bool
meets xs ys = any (contains ys) xs

-- text.replace("/", " ").split(), from a word begun on
unfoldable pub words_from : String → String → List String
words_from current String.[] = if current == "" then [] else current ∷ []
words_from current (String.◌∷◌ c s) =
    let longer = words_from (concat current (String.◌∷◌ c String.[])) s in
    let fresh = words_from "" s in
    if is_space c || nat_beq (code c) 47
    then (if current == "" then fresh else current ∷ fresh)
    else longer

-- sorted(texts)
unfoldable pub insert_text : String → List String → List String
insert_text text [] = text ∷ []
insert_text text (other ∷ rest) =
    let later = insert_text text rest in
    if is_lt (compare other text) then other ∷ later else text ∷ other ∷ rest

unfoldable pub sorted_texts : List String → List String
sorted_texts [] = []
sorted_texts (text ∷ rest) = insert_text text (sorted_texts rest)

abbrev pub default_interests : List String
default_interests =
    "ai" ∷ "ai agents" ∷ "agents" ∷ "cybersecurity" ∷ "cloud security" ∷ "cloud" ∷ "iam"
    ∷ "jarvis project" ∷ "jarvis" ∷ "software development" ∷ "software" ∷ "development" ∷ "finance"
    ∷ []

abbrev pub security_tags : List String
security_tags = "cloud" ∷ "iam" ∷ "vulnerability" ∷ "breach" ∷ "malware" ∷ "phishing" ∷ []

abbrev pub ai_tags : List String
ai_tags = "ai" ∷ "agents" ∷ "frameworks" ∷ "llm" ∷ []

abbrev pub tech_tags : List String
tech_tags = "software" ∷ "development" ∷ "cloud" ∷ "api" ∷ []

abbrev pub market_tags : List String
market_tags = "markets" ∷ "market" ∷ "finance" ∷ "supply_chain" ∷ "supply chain" ∷ []

module _ (fl : Floats) (world : World) where
  open fl use {Float, ratio, plus, round_to, less}

  pub record WorldEvent : Type 0 where
    pub event_id : String
    pub title : String
    pub summary : String
    pub category : WorldEventCategory
    pub severity : WorldEventSeverity
    pub source_name : Option String
    pub tags : List String
    pub verification_status : VerificationStatus
    pub confidence_score : Float
    pub relevance_score : Float
    pub should_alert : Bool

  -- A score with the reasons so far.
  abbrev pub Reasoned : Type 0
  Reasoned = Float × List String

  pub record Explanation : Type 0 where
    pub relevance_score : Float
    pub reasons : List String
    pub should_alert : Bool

  -- `_context_interests`: `none` is no context, or one without interests.
  unfoldable pub context_interests : Option (List String) → List String
  context_interests none = default_interests
  context_interests (some interests) = map (λ interest. world.lower (strip interest)) interests

  -- `_event_text`
  unfoldable pub event_text : WorldEvent → String
  event_text event = world.lower (
      join " " (
        event.title
        ∷ event.summary
        ∷ world.category_value event.category
        ∷ world.severity_value event.severity
        ∷ get_or event.source_name ""
        ∷ event.tags))

  -- `_score_weather_or_travel`
  unfoldable pub score_weather_or_travel : WorldEvent → List String → Reasoned
  score_weather_or_travel event interests =
      if is_severe event.severity
      then (ratio 70 100, "High-severity weather/travel events can affect planning." ∷ [])
      else if meets ("weather" ∷ "travel" ∷ []) interests
      then (ratio 60 100, "Context says weather or travel is currently relevant." ∷ [])
      else (ratio 40 100, "Weather/travel event is not high severity." ∷ [])

  -- A score, raised with a further reason if the tags say so.
  abbrev pub raised_if : Bool → ℕ → String → ℕ → String → Reasoned
  raised_if false score reason higher further = (ratio score 100, reason ∷ [])
  raised_if true score reason higher further = (ratio higher 100, reason ∷ further ∷ [])

  unfoldable pub score_category :
      WorldEventCategory → WorldEvent → List String → List String → String → Reasoned
  score_category cybersecurity event interests tags text =
      raised_if (meets tags security_tags) 65 "Cybersecurity events are relevant to Jarvis safety."
        90 "Security tags match cloud/IAM/threat interests."
  score_category ai_research event interests tags text =
      raised_if (meets tags ai_tags) 65 "AI research events are relevant to the Jarvis project." 82
        "AI research tags match agents/frameworks interests."
  score_category technology event interests tags text =
      raised_if (meets tags tech_tags) 50 "Technology events may affect software development." 78
        "Technology tags match software/cloud/API interests."
  score_category finance event interests tags text =
      (ratio 55 100, "Finance and market events are medium relevance." ∷ [])
  score_category markets event interests tags text =
      (ratio 55 100, "Finance and market events are medium relevance." ∷ [])
  score_category weather event interests tags text = score_weather_or_travel event interests
  score_category aviation event interests tags text = score_weather_or_travel event interests
  score_category geopolitics event interests tags text =
      raised_if (meets tags market_tags || is_in "markets" text || is_in "supply chain" text) 35
        "Geopolitical and energy events are low-to-medium relevance by default." 55
        "Event may affect markets or supply chain."
  score_category energy event interests tags text =
      raised_if (meets tags market_tags || is_in "markets" text || is_in "supply chain" text) 35
        "Geopolitical and energy events are low-to-medium relevance by default." 55
        "Event may affect markets or supply chain."
  score_category news event interests tags text =
      (ratio 25 100, "General news is low relevance by default." ∷ [])
  score_category (other_category name) event interests tags text = (ratio 20 100, [])

  abbrev pub at_least : Bool → ℕ → String → Reasoned → Reasoned
  at_least false least reason r = r
  at_least true least reason (score, reasons) =
      (float_max fl score (ratio least 100), reasons ++ reason ∷ [])

  abbrev pub boost_matched : List String → Reasoned → Reasoned
  boost_matched [] r = r
  boost_matched (term ∷ terms) (score, reasons) = (
    float_min fl (ratio 1 1) (plus score (ratio 12 100)),
    reasons
        ++ concat
            (concat "Context interests matched: "
              (join ", " (sorted_texts (unique (term ∷ terms)))))
            "."
          ∷ [],
  )

  -- `_apply_context_boost`
  unfoldable pub apply_context_boost : WorldEvent → List String → List String → Reasoned → Reasoned
  apply_context_boost event interests tags =
      boost_matched (keep (contains (words_from "" (event_text event) ++ tags)) interests)

  abbrev pub capped : ℕ → String → Reasoned → Reasoned
  capped most reason (score, reasons) =
      (float_min fl score (ratio most 100), reasons ++ reason ∷ [])

  abbrev pub boost_verified : VerificationStatus → Reasoned → Reasoned
  boost_verified disputed r = r
  boost_verified refuted r = r
  boost_verified multi_source (score, reasons) = (
    float_min fl (ratio 1 1) (plus score (ratio 5 100)),
    reasons ++ "Strong verification gives a small boost." ∷ [],
  )
  boost_verified trusted_source (score, reasons) = (
    float_min fl (ratio 1 1) (plus score (ratio 5 100)),
    reasons ++ "Strong verification gives a small boost." ∷ [],
  )
  boost_verified (other_status name) r = r

  abbrev pub is_doubtful : VerificationStatus → Bool
  is_doubtful disputed = true
  is_doubtful refuted = true
  is_doubtful multi_source = false
  is_doubtful trusted_source = false
  is_doubtful (other_status name) = false

  -- `_apply_confidence_and_verification`
  unfoldable pub apply_confidence_and_verification : WorldEvent → Reasoned → Reasoned
  apply_confidence_and_verification event r =
      if is_doubtful event.verification_status
      then capped 20 "Disputed or false verification caps relevance." r
      else if less event.confidence_score (ratio 30 100)
      then capped 40 "Low confidence caps relevance." r
      else boost_verified event.verification_status r

  -- `_clamp`
  unfoldable pub clamp_score : Float → Float
  clamp_score score = float_max fl (ratio 0 1) (float_min fl (ratio 1 1) (round_to 2 score))

  -- `_should_alert`
  unfoldable pub decide_alert : WorldEvent → Float → Bool
  decide_alert event score =
      if not (less score (ratio 85 100))
      then true
      else if event.should_alert && not (less score (ratio 60 100))
      then true
      else is_critical event.severity && not (less event.confidence_score (ratio 50 100))

  abbrev pub some_reason : List String → List String
  some_reason [] = "No strong relevance signals were found." ∷ []
  some_reason (reason ∷ reasons) = reason ∷ reasons

  -- `_score_with_reasons`
  unfoldable pub score_with_reasons : WorldEvent → Option (List String) → Explanation
  score_with_reasons event context =
      let interests = context_interests context in
      let tags = map world.lower event.tags in
      let by_category = score_category event.category event interests tags (event_text event) in
      let alerted =
        at_least (is_severe event.severity && event.should_alert) 90
          "High or critical alert event is highly relevant." by_category in
      let severe =
        at_least (is_critical event.severity) 75 "Critical severity increases relevance." alerted in
      let boosted = apply_context_boost event interests tags severe in
      let (score, reasons) = apply_confidence_and_verification event boosted in
      record {
        relevance_score = clamp_score score;
        reasons = some_reason reasons;
        should_alert = decide_alert event (clamp_score score);
      }

  abbrev pub score_event : WorldEvent → Option (List String) → Float
  score_event event context = (score_with_reasons event context).relevance_score

  -- The copies that `score_events` returns.
  unfoldable pub score_events : List WorldEvent → Option (List String) → List WorldEvent
  score_events [] context = []
  score_events (event ∷ later) context =
      let e = score_with_reasons event context in
      record event { relevance_score = e.relevance_score; should_alert = e.should_alert }
      ∷ score_events later context
