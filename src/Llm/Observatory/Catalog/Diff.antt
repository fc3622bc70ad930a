-- ===== src/Llm/Observatory/Catalog/Diff.antt =====
-- The comparison of a new catalog with the last (src/jarvis_brain/llm/routing_observatory.py,
-- `_reconcile_catalog`). `dump` is pydantic's `model_dump` of a node.
use jarvis_brain.Text.{sorted_texts, insert_text}
use jarvis_brain.Dict.{Dict, get, put, keys, values}
use jarvis_brain.Llm.Observatory.{Published, plain}
use jarvis_brain.Llm.Observatory.Catalog.{
  ProviderTopologyNode, ProviderTopologyState, ModelTopologyEntry,
}
use jarvis_brain.Prelude.{
  String, ◌≡◌, refl, ◌∙◌, Bool, true, false, not, ◌&&◌, ◌||◌, Option, none, some, List, [], ◌∷◌,
  ◌++◌, map, arith, if◌then◌else◌, Eq, ◌==◌, nat_eq, string_eq, pair_eq, keep, contains,
  discrete_eq, unique, if-elim, contains-keep, contains-unique_from_eq, none-contained,
}

abbrev Catalog : Type 0
Catalog = Dict String ProviderTopologyNode

pub record ProviderCatalogDiff : Type 0 where
  pub added_provider_ids : List String
  pub removed_provider_ids : List String
  pub updated_provider_ids : List String
  pub added_topology_node_ids : List String
  pub removed_topology_node_ids : List String
  pub updated_topology_node_ids : List String
  pub added_models : List String
  pub removed_models : List String

unfoldable pub state_discrete : Discrete ProviderTopologyState
state_discrete = hlevel

instance abbrev pub state_eq : Eq ProviderTopologyState
state_eq = discrete_eq state_discrete

-- sorted(set(xs) - set(ys))
unfoldable pub difference : List String → List String → List String
difference xs ys = sorted_texts (keep (λ x. not (contains ys x)) (unique xs))

-- {item.topology_node_id: item for item in providers}
unfoldable pub catalog_from : List ProviderTopologyNode → Catalog → Catalog
catalog_from [] d = d
catalog_from (node ∷ nodes) d = catalog_from nodes (put d node.topology_node_id node)

abbrev pub model_ids : List ModelTopologyEntry → List String
model_ids = map (λ m. m.topology_model_id)

unfoldable pub all_models : List ProviderTopologyNode → List String
all_models [] = []
all_models (node ∷ nodes) = model_ids node.models ++ all_models nodes

-- The providers of the nodes at the IDs: sorted({catalog[item].provider_id for item in ids})
unfoldable pub providers_at : Catalog → List String → List String
providers_at d [] = []
providers_at d (id ∷ ids) = elim (get d id) [
  | none ↦ providers_at d ids
  | some node ↦ node.provider_id ∷ providers_at d ids
]

abbrev pub provider_ids : Catalog → List String → List String
provider_ids d ids = sorted_texts (unique (providers_at d ids))

module _ {D : Type 0} ⦃e : Eq D⦄ (dump : ProviderTopologyNode → D) where
  abbrev pub is_changed : Option ProviderTopologyNode → Option ProviderTopologyNode → Bool
  is_changed (some old) (some new) = not (e.beq (dump new) (dump old))
  is_changed none new = false
  is_changed (some old) none = false

  -- The IDs in both catalogs whose nodes differ.
  unfoldable pub updated_ids : Catalog → Catalog → List String
  updated_ids previous current =
      sorted_texts (keep (λ id. is_changed (get previous id) (get current id)) (keys current))

  abbrev pub is_none : List String → Bool
  is_none [] = true
  is_none (x ∷ xs) = false

  abbrev pub diff_of : Catalog → Catalog → ProviderCatalogDiff
  diff_of previous current =
      let added = difference (keys current) (keys previous) in
      let removed = difference (keys previous) (keys current) in
      let updated = updated_ids previous current in
      record {
        added_provider_ids = provider_ids current added;
        removed_provider_ids = provider_ids previous removed;
        updated_provider_ids = provider_ids current updated;
        added_topology_node_ids = added;
        removed_topology_node_ids = removed;
        updated_topology_node_ids = updated;
        added_models = difference (all_models (values current)) (all_models (values previous));
        removed_models = difference (all_models (values previous)) (all_models (values current));
      }

  -- The sets of models differ exactly if one of the two differences is not empty.
  abbrev pub is_same : ProviderCatalogDiff → Bool
  is_same d =
      is_none d.added_topology_node_ids
      && is_none d.removed_topology_node_ids
      && is_none d.updated_topology_node_ids
      && is_none d.added_models
      && is_none d.removed_models

  abbrev pub health_changed :
      Option ProviderTopologyNode → Option ProviderTopologyNode → List Published
  health_changed (some old) (some new) =
      if not (old.health == new.health) then plain "llm.provider.health.changed" ∷ [] else []
  health_changed none new = []
  health_changed (some old) none = []

  unfoldable pub health_events : Catalog → Catalog → List String → List Published
  health_events previous current [] = []
  health_events previous current (id ∷ ids) =
      health_changed (get previous id) (get current id) ++ health_events previous current ids

  -- The catalog that is kept, the difference, and what is published of it.
  abbrev pub compared : Catalog → Catalog → Catalog × Option ProviderCatalogDiff × List Published
  compared [] current = (current, none, [])
  compared (entry ∷ entries) current =
      let d = diff_of (entry ∷ entries) current in
      if is_same d then (current, none, []) else (
        current,
        some d,
        plain "llm.catalog.changed"
              ∷ map (λ id. plain "llm.provider.added") d.added_topology_node_ids
            ++ map (λ id. plain "llm.provider.removed") d.removed_topology_node_ids
            ++ health_events (entry ∷ entries) current d.updated_topology_node_ids,
      )

  unfoldable pub reconcile_catalog :
      List ProviderTopologyNode → Catalog → Catalog × Option ProviderCatalogDiff × List Published
  reconcile_catalog providers previous = compared previous (catalog_from providers [])

contains-insert_text :
    (s : String) (xs : List String) (a : String)
    → contains (insert_text s xs) a ≡ ((s == a) || contains xs a)
unfolding contains insert_text
contains-insert_text s [] a = refl
contains-insert_text s (x ∷ xs) a = ground (arith, contains-insert_text s xs a)

contains-sorted_texts :
    (xs : List String) (a : String) → contains (sorted_texts xs) a ≡ contains xs a
unfolding contains sorted_texts
contains-sorted_texts [] a = refl
contains-sorted_texts (x ∷ xs) a =
    contains-insert_text x (sorted_texts xs) a ∙ ground (arith, contains-sorted_texts xs a)

contains-difference :
    (xs ys : List String) (a : String)
    → contains (difference xs ys) a ≡ (contains xs a && not (contains ys a))
unfolding contains difference
contains-difference xs ys a =
    contains-sorted_texts (keep (λ x. not (contains ys x)) (unique xs)) a
    ∙ contains-keep (λ x. not (contains ys x)) (unique xs) a
    ∙ ground (arith, contains-unique_from_eq [] xs a)

difference_self : (xs : List String) → difference xs xs ≡ []
difference_self xs =
    none-contained (difference xs xs) (λ a. ground (arith, contains-difference xs xs a))

module _ {D : Type 0} ⦃e : Eq D⦄ (dump : ProviderTopologyNode → D) where
  is_changed_self : (node : Option ProviderTopologyNode) → is_changed dump node node ≡ false
  is_changed_self none = refl
  is_changed_self (some node) = ground (arith, (e.beq_iff (dump node) (dump node)).1 refl)

  updated_ids_self : (d : Catalog) → updated_ids dump d d ≡ []
  unfolding updated_ids
  updated_ids_self d = none-contained _ (λ a.
      contains-sorted_texts (keep (λ id. is_changed dump (get d id) (get d id)) (keys d)) a
      ∙ contains-keep (λ id. is_changed dump (get d id) (get d id)) (keys d) a
      ∙ ground (arith, is_changed_self (get d a)))

  compared_self : (d : Catalog) → compared dump d d ≡ (d, none, [])
  compared_self [] = refl
  compared_self (entry ∷ entries) =
      let d = entry ∷ entries in
      rw (difference_self (keys d))
        (rw (updated_ids_self d) (rw (difference_self (all_models (values d))) refl))

  compared_kept : (previous current : Catalog) → (compared dump previous current).0 ≡ current
  compared_kept [] current = refl
  compared_kept (entry ∷ entries) current =
      if-elim (λ (r : Catalog × Option ProviderCatalogDiff × List Published). r.0 ≡ current)
        (is_same dump (diff_of dump (entry ∷ entries) current)) _ _ (λ same. refl) (λ changed. refl)

  module _ (providers : List ProviderTopologyNode) (previous : Catalog) where
    kept : (reconcile_catalog dump providers previous).0 ≡ catalog_from providers []
    unfolding reconcile_catalog
    kept = compared_kept previous (catalog_from providers [])

    -- A catalog that is built again without a change is no news: the second comparison finds no
    -- difference, publishes nothing and keeps the catalog, whatever was kept before the first.
    pub reconcile_catalog-twice :
        reconcile_catalog dump providers (reconcile_catalog dump providers previous).0
        ≡ (catalog_from providers [], none, [])
    unfolding reconcile_catalog
    reconcile_catalog-twice = rw kept (compared_self (catalog_from providers []))

  -- The IDs that a difference reports as added are those of the new catalog that the last one did not
  -- have, those reported as removed are the others way round, and those reported as updated are in
  -- the new catalog and have a node in both whose dumps differ.
  pub diff_of_iff :
      (previous current : Catalog) (id : String)
      → let d = diff_of dump previous current in
        (contains d.added_topology_node_ids id
          ≡ (contains (keys current) id && not (contains (keys previous) id)))
        × (contains d.removed_topology_node_ids id
            ≡ (contains (keys previous) id && not (contains (keys current) id)))
        × (contains d.updated_topology_node_ids id
            ≡ (contains (keys current) id && is_changed dump (get previous id) (get current id)))
  unfolding updated_ids
  diff_of_iff previous current id = (
    contains-difference (keys current) (keys previous) id,
    contains-difference (keys previous) (keys current) id,
    contains-sorted_texts
          (keep (λ id. is_changed dump (get previous id) (get current id)) (keys current)) id
        ∙ contains-keep (λ id. is_changed dump (get previous id) (get current id)) (keys current)
            id,
  )
