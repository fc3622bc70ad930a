-- ===== src/OmniRoute/Registry.antt =====
-- The allowlist of gateway routes (src/jarvis_brain/llm/omniroute/registry.py). Reading the document
-- from disk is left out: a registry is built from the routes that it holds.
pub mod Fallbacks
pub mod Approval
pub mod Examples
use Prim.Native.String.{compare}
use text.Mathlib.Text.{is_lt}
use jarvis_brain.OmniRoute.Schemas.{
  RouteLocality, RoutePrivacy, locality_eq, privacy_eq, OmniRouteRoute, OmniRouteSettings,
}
use jarvis_brain.Prelude.{
  ℕ, zero, suc, ◌+◌, ◌-◌, ◌*◌, ◌/◌, ◌%◌, ◌≤◌, ◌<◌, min, max, String, ◌≡◌, refl, sym, ap, ◌∙◌, subst,
  ◌≢◌, ◌↔◌, ◌⊎◌, inl, inr, Bool, true, false, not, ◌&&◌, ◌||◌, Option, none, some, List, [], ◌∷◌,
  ◌++◌, map, reverse, arith, ltb, leb, nat_beq, if◌then◌else◌, ltb→lt, lt→ltb, le→ltb, leb→le,
  le→leb, nat_beq_iff, Bool-cases, Option-cases, Eq, ◌==◌, nat_eq, string_eq, pair_eq, length, drop,
  last_n, keep, All, any, all, length-append, length-drop, length-last_n, contains, get_or, eq_iff,
  eq_refl, list_cases, last_n-last_n-append, last_n-short, drop-append, drop-drop, drop_at,
  drop-nil, ltb_asym, ltb_mono, dec_beq, dec_beq_iff, discrete_eq, unique, unique_from, is_subset,
  Mem, mem-cons_self, mem-cons_of_mem, all-Mem, contains-Mem, find, find-Mem, all_intro, keep-Mem,
  contains_of_Mem, All-Mem, append-eq-nil, unique-eq-nil, eq-cases, if-elim,
}

pub data RegistryError : Type 0 where
  duplicate_route_ids : RegistryError
  unknown_fallbacks crosses_class : String → RegistryError

pub data Checked (A : Type 0) : Type 0 where
  ok : A → Checked A
  err : RegistryError → Checked A

abbrev pub route_ids : List OmniRouteRoute → List String
route_ids = map (λ route. route.route_id)

abbrev pub has_id : String → OmniRouteRoute → Bool
has_id id route = route.route_id == id

-- The two comparisons of a fallback with the route that names it.
abbrev pub same_class : OmniRouteRoute → OmniRouteRoute → Bool
same_class route fallback =
    fallback.privacy_class == route.privacy_class && fallback.locality == route.locality

abbrev pub found_same_class : OmniRouteRoute → Option OmniRouteRoute → Bool
found_same_class route none = false
found_same_class route (some fallback) = same_class route fallback

-- Of the fallback that an ID names; that it is there has been checked before.
unfoldable pub fallback_fits : List OmniRouteRoute → OmniRouteRoute → String → Bool
fallback_fits routes route id = found_same_class route (find (has_id id) routes)

unfoldable pub check_routes :
    List OmniRouteRoute → List OmniRouteRoute → Checked (List OmniRouteRoute)
check_routes routes [] = ok routes
check_routes routes (route ∷ later) =
    let rest = check_routes routes later in
    if not (all (contains (route_ids routes)) route.fallback_route_ids)
    then err (unknown_fallbacks route.route_id)
    else if not (all (fallback_fits routes route) route.fallback_route_ids)
    then err (crosses_class route.route_id)
    else rest

-- `_RouteDocument.validate_unique_routes`
unfoldable pub validate_unique_routes : List OmniRouteRoute → Checked (List OmniRouteRoute)
validate_unique_routes routes =
    if nat_beq (length (route_ids routes)) (length (unique (route_ids routes)))
    then check_routes routes routes
    else err duplicate_route_ids

-- sorted(…, key=route_id), by insertion behind the routes whose IDs are not larger
unfoldable pub insert_route : OmniRouteRoute → List OmniRouteRoute → List OmniRouteRoute
insert_route route [] = route ∷ []
insert_route route (r ∷ rest) =
    if is_lt (compare r.route_id route.route_id)
    then r ∷ insert_route route rest
    else route ∷ r ∷ rest

unfoldable pub sorted_routes : List OmniRouteRoute → List OmniRouteRoute
sorted_routes [] = []
sorted_routes (route ∷ rest) = insert_route route (sorted_routes rest)

pub record OmniRouteRouteRegistry : Type 0 where
  pub settings : OmniRouteSettings
  pub routes : List OmniRouteRoute

-- `__init__`: the routes are validated, and none is kept if they do not pass.
unfoldable pub new_registry :
    OmniRouteSettings → List OmniRouteRoute → Checked OmniRouteRouteRegistry
new_registry settings routes = elim (validate_unique_routes routes) [
  | ok valid ↦ ok (record { settings = settings; routes = valid })
  | err e ↦ err e
]

unfoldable pub list_routes : OmniRouteRouteRegistry → List OmniRouteRoute
list_routes registry = sorted_routes registry.routes

unfoldable pub get_route : OmniRouteRouteRegistry → String → Option OmniRouteRoute
get_route registry id = find (has_id id) registry.routes

abbrev pub head : List OmniRouteRoute → Option OmniRouteRoute
head [] = none
head (route ∷ rest) = some route

unfoldable pub find_model : OmniRouteRouteRegistry → String → Option OmniRouteRoute
find_model registry model =
    head (sorted_routes (keep (λ route. route.model_id == model) registry.routes))

-- An allowlist that is empty allows everything.
abbrev pub is_listed : List String → String → Bool
is_listed [] value = true
is_listed (x ∷ xs) value = contains (x ∷ xs) value

unfoldable pub is_operator_approved : OmniRouteSettings → OmniRouteRoute → Bool
is_operator_approved settings route =
    if not route.enabled || route.locality == RouteLocality.unknown
    then false
    else if not (route.terms_status == "approved")
    then false
    else if not (is_listed settings.allowed_routes route.route_id)
    then false
    else if not (is_listed settings.allowed_providers route.provider_id)
    then false
    else if not (is_listed settings.allowed_models route.model_id)
    then false
    else true

unfoldable pub approved_routes : OmniRouteRouteRegistry → List OmniRouteRoute
approved_routes registry = keep (is_operator_approved registry.settings) (list_routes registry)
