-- ===== src/OmniRoute/Classifier/Boundary.antt =====
-- Classification and selection together: what keeps a request on this machine
-- (src/jarvis_brain/llm/omniroute/classifier.py and policy.py).
use mathlib.Core.List.{mem-append_right}
use jarvis_brain.Floats.{Floats}
use jarvis_brain.Text.{is_in, join}
use jarvis_brain.OmniRoute.Schemas.{
  RouteLocality, RoutePrivacy, TaskCategory, ModelCapability, capability_eq, category_eq,
  OmniRouteRoute, category_discrete,
}
use jarvis_brain.OmniRoute.Policy.{OmniRouteSelectionPolicy, select}
use jarvis_brain.OmniRoute.Policy.Privacy.{select_kept_local, select-capable}
use jarvis_brain.OmniRoute.Signals.{
  Platform, LlmMessage, RequestMetadata, contents, has_keyword, is_task, joined_user_text,
  sensitive_keywords, classify_privacy,
}
use jarvis_brain.OmniRoute.Classifier.{
  without_authority, from_voice, mapped, mapping, category, classify,
}
use jarvis_brain.Prelude.{
  String, ◌≡◌, refl, sym, subst, ◌≢◌, ◌↔◌, Bool, true, false, not, ◌&&◌, ◌||◌, none, some, List, [],
  ◌∷◌, ◌++◌, map, arith, ◌==◌, nat_eq, string_eq, pair_eq, all, contains, eq_iff, unique,
  mem-cons_self, contains-Mem, contains_of_Mem, if-elim, contains-unique_from,
}

preferred-not_allowed : ◌≢◌ {A = String} "local_preferred" "cloud_allowed"
preferred-not_allowed e = ground (arith, (eq_iff "local_preferred" "cloud_allowed").1 e)

unauthorised-not_allowed : (privacy : String) → without_authority false privacy ≢ "cloud_allowed"
unauthorised-not_allowed privacy =
    if-elim (λ (r : String). r ≢ "cloud_allowed")
      ((privacy == "cloud_allowed" || privacy == "cloud_required") && not false) "local_preferred"
      privacy (λ demoted. preferred-not_allowed)
      (λ kept same. ground (arith, kept, (eq_iff privacy "cloud_allowed").1 same))

-- A class that is not cloud_allowed is none after the check of the authority either.
stays_not_allowed :
    (cloud_authorized : Bool) (privacy : String)
    → privacy ≢ "cloud_allowed"
    → without_authority cloud_authorized privacy ≢ "cloud_allowed"
stays_not_allowed cloud_authorized privacy n =
    if-elim (λ (r : String). r ≢ "cloud_allowed")
      ((privacy == "cloud_allowed" || privacy == "cloud_required") && not cloud_authorized)
      "local_preferred" privacy (λ demoted. preferred-not_allowed) (λ kept. n)

-- A request that stays here requires local execution.
kept_required :
    (required : List ModelCapability)
    → contains
        (unique (required ++ ModelCapability.local_execution ∷ []))
        ModelCapability.local_execution
      ≡ true
unfolding contains
kept_required required =
    contains-unique_from [] (required ++ ModelCapability.local_execution ∷ [])
      ModelCapability.local_execution refl
      (contains_of_Mem (required ++ ModelCapability.local_execution ∷ [])
        ModelCapability.local_execution (mem-append_right required mem-cons_self))

module _ (fl : Floats) (policy : OmniRouteSelectionPolicy fl) (platform : Platform)
    (messages : List LlmMessage) (metadata : RequestMetadata) (route : OmniRouteRoute) where
  -- A request without the authorisation for the cloud is only ever given a local route for local data,
  -- whatever its privacy class, its texts and the settings of the gateway.
  pub unauthorised_stays :
      metadata.cloud_authorized ≡ false
      → (select fl policy (classify platform messages metadata)).route ≡ some route
      → (route.locality ≡ RouteLocality.local) × (route.privacy_class ≡ RoutePrivacy.local_only)
  unfolding classify
  unauthorised_stays unauthorised =
      select_kept_local fl policy (classify platform messages metadata) route (
        subst
          (λ b. without_authority b (classify_privacy platform messages metadata) ≢ "cloud_allowed")
          (sym unauthorised)
          (unauthorised-not_allowed (classify_privacy platform messages metadata)))

  -- A request of the class cloud_required is only ever given a local route, even with the authorisation.
  pub cloud_required_stays :
      (text : String)
      → metadata.privacy_class ≡ some text
      → platform.parse_privacy text ≡ some "cloud_required"
      → (select fl policy (classify platform messages metadata)).route ≡ some route
      → (route.locality ≡ RouteLocality.local) × (route.privacy_class ≡ RoutePrivacy.local_only)
  unfolding classify classify_privacy
  cloud_required_stays text overridden known =
      select_kept_local fl policy (classify platform messages metadata) route (
        stays_not_allowed metadata.cloud_authorized (classify_privacy platform messages metadata) (
          rw overridden (
            rw known
              (λ e. absurd (ground (arith, (eq_iff "cloud_required" "cloud_allowed").1 e))))))

  -- A request whose user text has a sensitive keyword, and which does not override its privacy class, is
  -- only ever given a local route for local data that has the capability of local execution, even with
  -- the authorisation. (The platform's value of the class LOCAL_ONLY is "local_only".)
  pub sensitive_stays :
      metadata.privacy_class ≡ none
      → platform.local_only ≡ "local_only"
      → has_keyword sensitive_keywords (joined_user_text platform messages) ≡ true
      → (select fl policy (classify platform messages metadata)).route ≡ some route
      → (route.locality ≡ RouteLocality.local)
        × (route.privacy_class ≡ RoutePrivacy.local_only)
        × (contains route.capabilities ModelCapability.local_execution ≡ true)
  unfolding classify classify_privacy
  sensitive_stays plain value sensitive chosen =
      let class : classify_privacy platform messages metadata ≡ "local_only" =
        rw plain (rw sensitive value) in
      let (here, own) =
        select_kept_local fl policy (classify platform messages metadata) route
          (stays_not_allowed metadata.cloud_authorized (classify_privacy platform messages metadata)
            (rw class (λ e. absurd (ground (arith, (eq_iff "local_only" "cloud_allowed").1 e)))))
          chosen in
      let able = select-capable fl policy (classify platform messages metadata) route chosen in
      (
        here,
        own,
        able.0 ModelCapability.local_execution
            (rw class (contains-Mem _ ModelCapability.local_execution (kept_required _))),
      )

abbrev is_command : TaskCategory → Bool
is_command kind = kind == TaskCategory.system_command

-- What no pair of a mapping gives, the mapping gives for no task.
mapped-not_command :
    (platform : Platform) (task : platform.LlmTaskType)
    (pairs : List (platform.LlmTaskType × TaskCategory))
    → all (λ pair. not (is_command pair.1)) pairs ≡ true
    → is_command (mapped platform task pairs) ≡ false
unfolding mapped all category_discrete
mapped-not_command platform task [] h = refl
mapped-not_command platform task ((member, kind) ∷ rest) h =
    if-elim (λ (r : TaskCategory). is_command r ≡ false) (is_task platform task member) kind
      (mapped platform task rest) (λ here. ground (arith, h))
      (λ later. mapped-not_command platform task rest (ground (arith, h)))

module _ (platform : Platform) (task : platform.LlmTaskType) (messages : List LlmMessage)
    (metadata : RequestMetadata) where
  -- A request is taken for a system command, which no route may serve, exactly when it is marked as one,
  -- does not come by voice and is no voice task, and no message has the words "long context".
  pub category-system_command :
      (category platform task messages metadata ≡ TaskCategory.system_command) ↔ (
        (from_voice metadata.source || is_task platform task platform.voice ≡ false)
        × (is_in "long context" (join " " (map platform.lower (contents messages))) ≡ false)
        × (metadata.system_command ≡ true))
  unfolding category all category_discrete
  category-system_command =
      let others = mapped-not_command platform task (mapping platform) refl in grind (arith, others)
