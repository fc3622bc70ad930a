-- ===== src/OmniRoute/Policy/Privacy.antt =====
-- Privacy, approval and authority are hard limits of the selection, never weights
-- (src/jarvis_brain/llm/omniroute/policy.py).
use jarvis_brain.Floats.{Floats}
use jarvis_brain.OmniRoute.Schemas.{
  RouteLocality, RoutePrivacy, TaskCategory, ModelCapability, locality_eq, privacy_eq,
  capability_eq, category_eq, OmniRouteRoute, RouteClassification,
}
use jarvis_brain.OmniRoute.Registry.{is_operator_approved}
use jarvis_brain.OmniRoute.Policy.{
  Failure, failure_eq, failures, OmniRouteSelectionPolicy, health_of, health_of, locality_checks,
  capability_checks, hard_filter, select,
}
use jarvis_brain.OmniRoute.Policy.Choice.{select-hard_filter}
use jarvis_brain.Prelude.{
  ◌≤◌, ◌≡◌, refl, ◌≢◌, Bool, true, false, some, List, [], ◌∷◌, ◌++◌, arith, nat_eq, string_eq,
  pair_eq, All, contains, eq_iff, Mem, all-Mem, unique-eq-nil,
}

failures-eq-nil :
    (checks : List (Bool × Failure)) → failures checks ≡ [] → All (λ k. k.0 ≡ false) checks
unfolding failures
failures-eq-nil [] e = tt
failures-eq-nil ((true, code) ∷ later) e = absurd (ground arith)
failures-eq-nil ((false, code) ∷ later) e = (refl, failures-eq-nil later e)

All-append {ℓ ℓ'} :
    {A : Type ℓ} (P : A → Type ℓ') (xs ys : List A) → All P (xs ++ ys) → All P xs × All P ys
All-append P [] ys h = (tt, h)
All-append P (x ∷ xs) ys h = let (first, rest) = All-append P xs ys h.1 in ((h.0, first), rest)

module _ (fl : Floats) (policy : OmniRouteSelectionPolicy fl) (route : OmniRouteRoute)
    (c : RouteClassification) where
  abbrev Off : Bool × Failure → Type 0
  Off k = k.0 ≡ false

  hard_filter_parts :
      hard_filter fl policy route c ≡ []
      → (is_operator_approved policy.registry.settings route ≡ true)
        × All Off (locality_checks fl policy route c)
        × All Off (capability_checks fl policy route c)
  unfolding hard_filter
  hard_filter_parts e =
      let off = failures-eq-nil _ (unique-eq-nil ⦃e = failure_eq⦄ _ e) in
      let (place, able) = All-append Off (locality_checks fl policy route c) _ off.1 in
      (ground (arith, off.0), place, able)

  -- Where a route may run: on this machine for local data only, or in the cloud if the settings, the
  -- request and the class of the route all allow it.
  pub data Placement : Type 0 where
    stays_local :
        route.locality ≡ RouteLocality.local
        → route.privacy_class ≡ RoutePrivacy.local_only
        → Placement
    goes_out :
        route.locality ≡ RouteLocality.cloud
        → policy.settings.allow_cloud ≡ true
        → c.privacy ≡ "cloud_allowed"
        → route.privacy_class ≢ RoutePrivacy.local_only
        → Placement

  placed :
      (where_it_runs : RouteLocality)
      → route.locality ≡ where_it_runs
      → All Off (locality_checks fl policy route c)
      → Placement
  unfolding locality_checks
  placed RouteLocality.local at off = stays_local at (
      (privacy_eq.beq_iff route.privacy_class RoutePrivacy.local_only).0 (
        ground (
          arith,
          off.1.1.1.1.1.1.0,
          (locality_eq.beq_iff route.locality RouteLocality.local).1 at,
        )))
  placed RouteLocality.cloud at off =
      let here = (locality_eq.beq_iff route.locality RouteLocality.cloud).1 at in
      goes_out at (ground (arith, off.1.1.0, here))
        ((eq_iff c.privacy "cloud_allowed").0 (ground (arith, off.1.1.1.0, here)))
        (λ own. absurd (ground (arith, off.1.1.1.1.0, here, own)))
  placed RouteLocality.mixed at off =
      absurd
        (ground (arith, off.1.0, (locality_eq.beq_iff route.locality RouteLocality.mixed).1 at))
  placed RouteLocality.unknown at off =
      absurd
        (ground (arith, off.0, (locality_eq.beq_iff route.locality RouteLocality.unknown).1 at))

module _ (fl : Floats) (policy : OmniRouteSelectionPolicy fl) (c : RouteClassification)
    (route : OmniRouteRoute) where
  -- A selected route is approved by the operator, and either is a local route for local data only, or
  -- is a cloud route where the settings allow the cloud, the request is cloud_allowed and the class of
  -- the route is not local_only. A mixed or unknown route is never selected.
  pub select-Placement :
      (select fl policy c).route ≡ some route
      → (is_operator_approved policy.registry.settings route ≡ true) × Placement fl policy route c
  select-Placement e =
      let (listed, passes) = select-hard_filter fl policy c route e in
      let (approved, place, able) = hard_filter_parts fl policy route c passes in
      (approved, placed fl policy route c route.locality refl place)

  -- A request whose privacy is not cloud_allowed only ever gets a local route for local data.
  pub select_kept_local :
      c.privacy ≢ "cloud_allowed"
      → (select fl policy c).route ≡ some route
      → (route.locality ≡ RouteLocality.local) × (route.privacy_class ≡ RoutePrivacy.local_only)
  select_kept_local keep_in e = elim (select-Placement e).1 [
    | stays_local here own ↦ (here, own)
    | goes_out there allowed asked open_class ↦ absurd (keep_in asked)
  ]

  -- A selected route has every capability that the request requires, its context window holds the
  -- estimated tokens, its observed health is above zero, and the task is neither a system command nor
  -- safety sensitive.
  pub select-capable :
      (select fl policy c).route ≡ some route
      → ((capability : ModelCapability)
          → Mem capability c.required_capabilities
          → contains route.capabilities capability ≡ true)
        × (c.estimated_context_tokens ≤ route.context_window)
        × (fl.less (fl.ratio 0 1) (health_of fl policy route) ≡ true)
        × (c.task_category ≢ TaskCategory.system_command)
        × (c.task_category ≢ TaskCategory.safety_sensitive)
  unfolding capability_checks
  select-capable e =
      let (listed, passes) = select-hard_filter fl policy c route e in
      let (approved, place, able) = hard_filter_parts fl policy route c passes in
      (
        all-Mem (contains route.capabilities) c.required_capabilities (ground (arith, able.0)),
        ground (arith, able.1.1.1.0),
        ground (arith, able.1.1.1.1.1.0),
        (λ is. ground (
          arith,
          able.1.1.1.1.1.1.0,
          (category_eq.beq_iff c.task_category TaskCategory.system_command).1 is,
        )),
        (λ is. ground (
          arith,
          able.1.1.1.1.1.1.0,
          (category_eq.beq_iff c.task_category TaskCategory.safety_sensitive).1 is,
        )),
      )
