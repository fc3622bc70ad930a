-- ===== src/Llm/Router/Stream.antt =====
-- `generate_stream` (src/jarvis_brain/llm/intelligence_router.py): candidates in order, each for as long
-- as none has shown output. A provider's stream is the list of its events; what the router yields is
-- returned beside its calls.
pub mod Exceptions
pub mod Endings
pub mod Sources
pub mod Places
use jarvis_brain.Floats.{Floats}
use jarvis_brain.OmniRoute.Schemas.{OmniRouteRoute}
use jarvis_brain.OmniRoute.Signals.{Platform}
use jarvis_brain.OmniRoute.Policy.{RouteSelection}
use jarvis_brain.Text.{or_else}
use jarvis_brain.Llm.Names.{LlmProviderName, name_eq}
use jarvis_brain.Llm.Providers.{StreamEvent, create_provider}
use jarvis_brain.Llm.Router.{
  LlmRequest, GatewayMetadata, Provider, Selected, IntelligenceRouter, Facts, facts_of, chain_of,
  model_for, make_decision, reason_text, gateway_metadata, routed, opening, connecting, validating,
  completed, route_selected, asked, stream_delta, failed, logged, record_success, record_failure,
  Call,
}
use jarvis_brain.Llm.Router.Generate.{Decision, Calls, selection_of}
use jarvis_brain.Prelude.{
  String, ℕ, zero, suc, ◌+◌, ◌-◌, ◌*◌, ◌/◌, ◌%◌, ◌≤◌, ◌<◌, min, max, ◌≡◌, refl, sym, ap, ◌∙◌, subst,
  ◌≢◌, ◌↔◌, ◌⊎◌, inl, inr, Bool, true, false, not, ◌&&◌, ◌||◌, Option, none, some, List, [], ◌∷◌,
  ◌++◌, map, reverse, arith, ltb, leb, nat_beq, if◌then◌else◌, ltb→lt, lt→ltb, le→ltb, leb→le,
  le→leb, nat_beq_iff, Bool-cases, Option-cases, Eq, ◌==◌, nat_eq, string_eq, pair_eq, length, drop,
  last_n, keep, All, any, all, length-append, length-drop, length-last_n, contains, get_or, eq_iff,
  eq_refl, list_cases, last_n-last_n-append, last_n-short, drop-append, drop-drop, drop_at,
  drop-nil, ltb_asym, ltb_mono, dec_beq, dec_beq_iff, discrete_eq, unique, unique_from, is_subset,
  Mem, mem-cons_self, mem-cons_of_mem, all-Mem, contains-Mem, find, find-Mem, all_intro, keep-Mem,
  contains_of_Mem, All-Mem, append-eq-nil, unique-eq-nil, eq-cases, if-elim, contains-unique_from,
  mem_keep, mem_second, holds-prop, All-append, contains-keep, contains-unique_from_eq,
  none-contained,
}

-- How the loop over one stream ends: by a return, by the break after an error, or with the stream.
pub data Ending : Type 0 where
  returned broken ran_out : Ending

module _ (platform : Platform) (fl : Floats) where
  -- An entry of `candidates`.
  pub record Candidate : Type 0 where
    pub name : LlmProviderName
    pub model : String
    pub provider : Provider platform fl
    pub gateway_metadata : Option (GatewayMetadata platform fl)

  -- What the router's caller sees: the tokens that it passes on, its three ends, and `raised`, the
  -- exception of a provider's stream, which the router lets through.
  pub data Output : Type 0 where
    token : String → Output
    done : LlmProviderName → String → Decision platform fl → Bool → Output
    error_after_output : LlmProviderName → String → Output
    fallback_exhausted raised : Output

  pub record Drained : Type 0 where
    pub output : List Output
    pub calls : Calls platform fl
    pub ending : Ending

  abbrev pub yielded : Output → Call platform fl → Drained → Drained
  yielded output call rest = record {
    output = output ∷ rest.output;
    calls = call ∷ rest.calls;
    ending = rest.ending;
  }

  abbrev pub is_gateway : LlmProviderName → Bool
  is_gateway name = name == LlmProviderName.omniroute

  abbrev pub logged_if : Bool → String → Calls platform fl
  logged_if true event = logged event ∷ []
  logged_if false event = []

  -- The loop over the events of a candidate's stream. `visible` is `visible_output`.
  unfoldable pub drain : Candidate → Decision platform fl → Bool → ℕ → List StreamEvent → Drained
  drain c decision visible chunk [] = record { output = []; calls = []; ending = ran_out }
  drain c decision visible chunk (StreamEvent.token content ∷ later) =
      let skip = drain c decision visible chunk later in
      let rest = drain c decision true (chunk + 1) later in
      if content == "" then skip else yielded (token content) (stream_delta (chunk + 1)) rest
  drain c decision visible chunk (StreamEvent.done ∷ later) = record {
    output = done c.name c.model decision decision.fallback_used ∷ [];
    calls =
        validating
        ∷ record_success c.name decision
        ∷ completed
        ∷ logged_if (is_gateway c.name) "omniroute_stream_completed";
    ending = returned;
  }
  drain c decision true chunk (StreamEvent.error ∷ later) = record {
    output = error_after_output c.name c.model ∷ [];
    calls = record_failure c.name decision ∷ failed "STREAM_FAILED_AFTER_OUTPUT" false ∷ [];
    ending = returned;
  }
  drain c decision false chunk (StreamEvent.error ∷ later) = record {
    output = [];
    calls =
        record_failure c.name decision
        ∷ failed "STREAM_FAILED_BEFORE_OUTPUT" true
        ∷ logged_if (is_gateway c.name) "omniroute_fallback_started";
    ending = broken;
  }
  drain c decision visible chunk (StreamEvent.raises ∷ later) = record {
    output = raised ∷ [];
    calls = [];
    ending = returned;
  }
  drain c decision visible chunk (StreamEvent.other ∷ later) = drain c decision visible chunk later

  module _ (router : IntelligenceRouter platform fl) where
    abbrev pub id_of : Candidate → String
    id_of c = elim c.gateway_metadata [
      | none ↦ router.provider_value c.name
      | some m ↦ or_else m.selected_provider_id (router.provider_value c.name)
    ]

    abbrev pub names_of : List Candidate → List LlmProviderName
    names_of = map (λ c. c.name)

    -- `later` are the candidates behind `c`; `fallback` is `index > 0`.
    abbrev pub stream_decision :
        Facts platform fl → Candidate → List Candidate → Bool → Decision platform fl
    stream_decision facts c later fallback =
        make_decision platform fl facts c.name c.model (c.name ∷ names_of later) fallback
          (reason_text platform fl router facts c.name fallback) c.gateway_metadata

    abbrev pub route_id_of : Candidate → Option String
    route_id_of c = elim c.gateway_metadata [
      | none ↦ none
      | some m ↦
          if is_gateway c.name && not (m.selected_route_id == "")
          then some m.selected_route_id
          else none
    ]

    abbrev pub stream_selected :
        Candidate → Decision platform fl → Option String → Selected platform fl
    stream_selected c decision failed_provider_id = record {
      decision = decision;
      gateway = if is_gateway c.name then "omniroute" else "direct";
      provider_id = id_of c;
      route_id = route_id_of c;
      fallback_from = if decision.fallback_used then failed_provider_id else none;
    }

    abbrev pub drained : Facts platform fl → Candidate → List Candidate → Bool → Drained
    drained facts c later fallback =
        let decision = stream_decision facts c later fallback in
        drain c decision false 0
          (c.provider.generate_stream (routed platform fl facts c.name c.model decision))

    abbrev pub stream_calls : Candidate → Decision platform fl → Option String → Calls platform fl
    stream_calls c decision failed_provider_id =
        route_selected (stream_selected c decision failed_provider_id)
          ∷ connecting
          ∷ logged_if (is_gateway c.name) "omniroute_stream_started"
        ++ asked c.provider ∷ []

    -- After a stream: nothing more, or the candidates behind it.
    abbrev pub follow :
        Calls platform fl
        → Drained
        → List Output × Calls platform fl
        → List Output × Calls platform fl
        → List Output × Calls platform fl
    follow calls d after_break after_end = elim d.ending [
      | returned ↦ (d.output, calls ++ d.calls)
      | broken ↦ (d.output ++ after_break.0, calls ++ d.calls ++ after_break.1)
      | ran_out ↦ (d.output ++ after_end.0, calls ++ d.calls ++ after_end.1)
    ]

    unfoldable pub stream_loop :
        Facts platform fl → Bool → Option String → List Candidate → List Output × Calls platform fl
    stream_loop facts fallback failed_provider_id [] = (fallback_exhausted ∷ [], [])
    stream_loop facts fallback failed_provider_id (c ∷ later) =
        let decision = stream_decision facts c later fallback in
        let after_failure = stream_loop facts true (some (id_of c)) later in
        let after_end = stream_loop facts true failed_provider_id later in
        let run =
          follow (stream_calls c decision failed_provider_id) (drained facts c later fallback)
            after_failure after_end in
        if not c.provider.is_available then after_failure else run

    -- The gateway's candidate, if its route may stream.
    abbrev pub gateway_candidate :
        Facts platform fl → RouteSelection fl → Bool → Option OmniRouteRoute → List Candidate
    gateway_candidate facts selection true (some route) =
        let candidate : Candidate = record {
          name = LlmProviderName.omniroute;
          model = route.model_id;
          provider = router.provider_registry.gateway_provider route;
          gateway_metadata = some (gateway_metadata platform fl facts selection route);
        } in
        if route.supports_streaming then candidate ∷ [] else []
    gateway_candidate facts selection true none = []
    gateway_candidate facts selection false route = []

    abbrev pub entry : LlmProviderName → String → Option (Provider platform fl) → List Candidate
    entry name model none = []
    entry name model (some provider) =
        let candidate : Candidate = record {
          name = name;
          model = model;
          provider = provider;
          gateway_metadata = none;
        } in
        candidate ∷ []

    unfoldable pub direct_candidates : Facts platform fl → List LlmProviderName → List Candidate
    direct_candidates facts [] = []
    direct_candidates facts (name ∷ names) =
        let model = model_for platform fl router facts name in
        entry name model (create_provider _ _ router.provider_registry name model)
        ++ direct_candidates facts names

    abbrev pub candidates_of : Facts platform fl → RouteSelection fl → List Candidate
    candidates_of facts selection =
        gateway_candidate facts selection (router.streaming_enabled && selection.selected)
          selection.route
        ++ direct_candidates facts (chain_of platform fl router facts)

    unfoldable pub generate_stream : LlmRequest → List Output × Calls platform fl
    generate_stream request =
        let facts = facts_of platform fl request in
        let selection = selection_of platform fl router facts in
        let run = stream_loop facts false none (candidates_of facts selection) in
        (run.0, opening platform fl selection ++ run.1)
