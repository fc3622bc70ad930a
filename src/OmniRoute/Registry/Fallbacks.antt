-- ===== src/OmniRoute/Registry/Fallbacks.antt =====
-- What a validated registry promises of fallbacks
-- (src/jarvis_brain/llm/omniroute/registry.py).
use jarvis_brain.OmniRoute.Schemas.{locality_eq, privacy_eq, OmniRouteRoute, OmniRouteSettings}
use jarvis_brain.OmniRoute.Registry.{
  Checked, ok, err, route_ids, same_class, found_same_class, fallback_fits, check_routes,
  validate_unique_routes, OmniRouteRouteRegistry, new_registry, get_route,
}
use jarvis_brain.Prelude.{
  String, ◌≡◌, refl, sym, ap, ◌∙◌, subst, ◌↔◌, inl, inr, true, some, List, [], ◌∷◌, arith, nat_beq,
  nat_beq_iff, Bool-cases, nat_eq, string_eq, pair_eq, length, All, all, contains, unique, Mem,
  all-Mem, All-Mem,
}

-- The routes that `route` falls back to in one step: those that its IDs name.
pub data FallsBack (registry : OmniRouteRouteRegistry)
    : OmniRouteRoute → OmniRouteRoute → Type 0 where
  falls :
      {route fallback : OmniRouteRoute} (id : String)
      → Mem route registry.routes
      → Mem id route.fallback_route_ids
      → get_route registry id ≡ some fallback
      → FallsBack registry route fallback

-- … and in any number of steps.
pub data Chain (registry : OmniRouteRouteRegistry) (route : OmniRouteRoute)
    : OmniRouteRoute → Type 0 where
  here : Chain registry route route
  next :
      {r s : OmniRouteRoute}
      → Chain registry route r
      → FallsBack registry r s
      → Chain registry route s

-- What `check_routes` has looked at for one route.
pub record Fits (routes : List OmniRouteRoute) (route : OmniRouteRoute) : Type 0 where
  pub known : all (contains (route_ids routes)) route.fallback_route_ids ≡ true
  pub fitting : all (fallback_fits routes route) route.fallback_route_ids ≡ true

check_routes_sound :
    (routes later : List OmniRouteRoute) {valid : List OmniRouteRoute}
    → check_routes routes later ≡ ok valid
    → All (Fits routes) later × (valid ≡ routes)
unfolding check_routes
check_routes_sound routes [] e = (tt, ground arith)
check_routes_sound routes (route ∷ later) e =
    elim (Bool-cases (all (contains (route_ids routes)) route.fallback_route_ids)) [
      | inr unknown ↦ absurd (ground arith)
      | inl known ↦ elim (Bool-cases (all (fallback_fits routes route) route.fallback_route_ids)) [
        | inr crossing ↦ absurd (ground arith)
        | inl fitting ↦
            let (rest, same) =
              check_routes_sound routes later (ground (arith, e, known, fitting)) in
            ((record { known = known; fitting = fitting }, rest), same)
      ]
    ]

check_routes_complete :
    (routes later : List OmniRouteRoute)
    → All (Fits routes) later
    → check_routes routes later ≡ ok routes
unfolding check_routes
check_routes_complete routes [] h = refl
check_routes_complete routes (route ∷ later) h =
    rw (h.0.known, h.0.fitting) (check_routes_complete routes later h.1)

-- A document of routes is accepted, and kept as it is, exactly when no ID occurs twice, every
-- fallback ID names a route of the document, and that route has the privacy and the locality of the
-- route that falls back to it.
pub validate_unique_routes_iff :
    (routes valid : List OmniRouteRoute)
    → (validate_unique_routes routes ≡ ok valid) ↔ (
        (length (route_ids routes) ≡ length (unique (route_ids routes)))
        × All (Fits routes) routes
        × (valid ≡ routes))
unfolding validate_unique_routes
validate_unique_routes_iff routes valid = (sound, complete)
  where
    sound :
        validate_unique_routes routes ≡ ok valid
        → (length (route_ids routes) ≡ length (unique (route_ids routes)))
          × All (Fits routes) routes
          × (valid ≡ routes)
    sound e =
        elim (Bool-cases
          (nat_beq (length (route_ids routes)) (length (unique (route_ids routes))))) [
            | inl once ↦
                let (fits, same) = check_routes_sound routes routes (ground (arith, e, once)) in
                ((nat_beq_iff _ _).0 once, fits, same)
            | inr twice ↦ absurd (ground arith)
          ]

    complete :
        ((length (route_ids routes) ≡ length (unique (route_ids routes)))
          × All (Fits routes) routes
          × (valid ≡ routes))
        → validate_unique_routes routes ≡ ok valid
    complete (once, fits, same) =
        rw ((nat_beq_iff _ _).1 once) (check_routes_complete routes routes fits ∙ ap ok (sym same))

Fits-prop : (routes : List OmniRouteRoute) (route : OmniRouteRoute) → IsProp (Fits routes route)
Fits-prop routes route = hlevel

Fits-same_class :
    (registry : OmniRouteRouteRegistry) {route fallback : OmniRouteRoute} (id : String)
    → Fits registry.routes route
    → Mem id route.fallback_route_ids
    → get_route registry id ≡ some fallback
    → (fallback.privacy_class ≡ route.privacy_class) × (fallback.locality ≡ route.locality)
unfolding get_route fallback_fits
Fits-same_class registry {route} {fallback} id f m e =
    let h : same_class route fallback ≡ true =
      subst (λ o. found_same_class route o ≡ true) e
        (all-Mem (fallback_fits registry.routes route) route.fallback_route_ids f.fitting id m) in
    (
      (privacy_eq.beq_iff _ _).0 (ground (arith, h)),
      (locality_eq.beq_iff _ _).0 (ground (arith, h)),
    )

new_registry-eq-ok :
    (settings : OmniRouteSettings) (routes : List OmniRouteRoute)
    (registry : OmniRouteRouteRegistry) (checked : Checked (List OmniRouteRoute))
    → validate_unique_routes routes ≡ checked
    → new_registry settings routes ≡ ok registry
    → (validate_unique_routes routes ≡ ok registry.routes) × (registry.settings ≡ settings)
unfolding new_registry
new_registry-eq-ok settings routes registry (ok valid) e built = ground (arith, e, built)
new_registry-eq-ok settings routes registry (err x) e built = absurd (ground (arith, e, built))

module _ (settings : OmniRouteSettings) (routes : List OmniRouteRoute)
    (registry : OmniRouteRouteRegistry) (built : new_registry settings routes ≡ ok registry) where
  new_registry-Fits : All (Fits registry.routes) registry.routes
  new_registry-Fits =
      let (e, same) =
        new_registry-eq-ok settings routes registry (validate_unique_routes routes) refl built in
      let (once, fits, kept) = (validate_unique_routes_iff routes registry.routes).0 (e) in
      subst (λ r. All (Fits r) r) (sym kept) fits

  FallsBack-same_class :
      {route fallback : OmniRouteRoute}
      → FallsBack registry route fallback
      → (fallback.privacy_class ≡ route.privacy_class) × (fallback.locality ≡ route.locality)
  FallsBack-same_class (falls {route = route} id m n e) =
      Fits-same_class registry id
        (All-Mem (Fits-prop registry.routes) registry.routes new_registry-Fits route m) n e

  -- In a registry that could be built, no chain of fallbacks, however long, leaves the privacy class
  -- or the locality of the route where it starts.
  pub Chain-same_class :
      {route end : OmniRouteRoute}
      → Chain registry route end
      → (end.privacy_class ≡ route.privacy_class) × (end.locality ≡ route.locality)
  Chain-same_class here = (refl, refl)
  Chain-same_class (next chain step) =
      let (p, l) = Chain-same_class chain in
      let (p', l') = FallsBack-same_class step in (p' ∙ p, l' ∙ l)
