-- ===== src/Orchestrator/Forward.antt =====
-- The edges of the execution graph (src/jarvis_brain/orchestrator/execution_graph.py).
use mathlib.Core.List.{append_assoc}
use jarvis_brain.Orchestrator.{BrainPlanStep}
use jarvis_brain.Orchestrator.Graph.{
  build, nodes_from, edges_from, node_ids, edge, dependencies, IsOrdered, IsForward, IsDistinct,
  Reaches, IsAcyclic, BrainExecutionGraphEdge,
}
use jarvis_brain.Prelude.{
  String, ◌≡◌, refl, sym, subst, true, [], ◌∷◌, ◌++◌, map, arith, Bool-cases, ◌==◌, nat_eq,
  string_eq, pair_eq, All, contains, All-append, List, ℕ, suc, ◌<◌, All-Mem, holds-prop, ltb,
  lt→ltb, ltb→lt, if◌then◌else◌, inl, inr,
}

contains-end : (xs : List String) (a : String) → contains (xs ++ a ∷ []) a ≡ true
unfolding contains
contains-end [] a = ground (arith, (string_eq.beq_iff a a).1 refl)
contains-end (x ∷ xs) a = ground (arith, contains-end xs a)

contains-append_some :
    (xs ys : List String) (a : String) → contains xs a ≡ true → contains (xs ++ ys) a ≡ true
unfolding contains
contains-append_some [] ys a h = absurd (ground (arith, h))
contains-append_some (x ∷ xs) ys a h = elim (Bool-cases (x == a)) [
  | inl same ↦ ground (arith, same)
  | inr other ↦ ground (arith, contains-append_some xs ys a (ground (arith, h, other)))
]

-- The edges into one step come from before it.
edges_into :
    (front behind sources : List String) (target : String)
    → All (λ id. contains front id ≡ true) sources
    → All (IsForward (front ++ target ∷ behind)) (map (λ source. edge source target) sources)
edges_into front behind [] target h = tt
edges_into front behind (source ∷ sources) target (here, later) =
    ((front, (behind, (refl, here))), edges_into front behind sources target later)

dependencies-before :
    (front : List String) (previous : String) (given : List String)
    → contains front previous ≡ true
    → All (λ id. contains front id ≡ true) given
    → All (λ id. contains front id ≡ true) (dependencies previous given)
dependencies-before front previous [] here h = (here, tt)
dependencies-before front previous (id ∷ ids) here h = h

edges_from-IsForward :
    (front : List String) (previous : String) (steps : List BrainPlanStep)
    → contains front previous ≡ true
    → IsOrdered front steps
    → All (IsForward (front ++ node_ids (nodes_from steps))) (edges_from previous steps)
unfolding nodes_from edges_from
edges_from-IsForward front previous [] here ordered = (
  (front, ("response" ∷ [], (refl, here))),
  (
    (
      front ++ "verification" ∷ [],
      (
        [],
        (
          sym (append_assoc front ("verification" ∷ []) ("response" ∷ [])),
          contains-end front "verification",
        ),
      ),
    ),
    tt,
  ),
)
edges_from-IsForward front previous (step ∷ steps) here (waits, ordered) =
    All-append (IsForward (front ++ step.step_id ∷ node_ids (nodes_from steps)))
      (map (λ dependency. edge dependency step.step_id) (dependencies previous step.depends_on))
      (edges_from step.step_id steps)
      (edges_into front (node_ids (nodes_from steps)) (dependencies previous step.depends_on)
        step.step_id (dependencies-before front previous step.depends_on here waits))
      (subst (λ ids. All (IsForward ids) (edges_from step.step_id steps))
        (append_assoc front (step.step_id ∷ []) (node_ids (nodes_from steps)))
        (edges_from-IsForward (front ++ step.step_id ∷ []) step.step_id steps
          (contains-end front step.step_id) ordered))

-- If the steps of a plan wait for steps before them only, or for the intent and the context, then each
-- edge of its execution graph leads from a node to one behind it.
build-IsForward :
    (steps : List BrainPlanStep)
    → IsOrdered ("intent" ∷ "context" ∷ []) steps
    → All (IsForward (node_ids (build steps).nodes)) (build steps).edges
unfolding build contains
build-IsForward steps ordered = (
  ("intent" ∷ [], (node_ids (nodes_from steps), (refl, refl))),
  edges_from-IsForward ("intent" ∷ "context" ∷ []) "context" steps refl ordered,
)

-- The place of the first `a` in the list.
unfoldable index : List String → String → ℕ
index [] a = 0
index (x ∷ xs) a = let rest = index xs a in if x == a then 0 else suc rest

contains-middle :
    (before : List String) (a : String) (behind : List String)
    → contains (before ++ a ∷ behind) a ≡ true
unfolding contains
contains-middle [] a behind = ground (arith, (string_eq.beq_iff a a).1 refl)
contains-middle (x ∷ before) a behind = ground (arith, contains-middle before a behind)

-- Of two places in a list without repetition, the first one is less.
index_mono :
    (before : List String) (source target : String) (behind : List String)
    → IsDistinct (before ++ target ∷ behind)
    → contains before source ≡ true
    → index (before ++ target ∷ behind) source < index (before ++ target ∷ behind) target
unfolding index contains
index_mono [] source target behind distinct here = absurd (ground (arith, here))
index_mono (x ∷ before) source target behind (fresh, distinct) here =
    elim (Bool-cases (x == target)) [
      | inl same ↦
          let found =
            subst (λ z. contains (before ++ target ∷ behind) z ≡ true)
              (sym ((string_eq.beq_iff x target).0 same)) (contains-middle before target behind) in
          absurd (ground (arith, fresh, found))
      | inr other ↦ elim (Bool-cases (x == source)) [
        | inl hit ↦ ground (arith, other, hit)
        | inr miss ↦
            let later =
              index_mono before source target behind distinct (ground (arith, here, miss)) in
            ground (arith, other, miss, later)
      ]
    ]

-- Each edge goes up.
abbrev IsRising : List String → BrainExecutionGraphEdge → Type 0
IsRising ids e = ltb (index ids e.source) (index ids e.target) ≡ true

IsForward-IsRising :
    (ids : List String) (e : BrainExecutionGraphEdge)
    → IsDistinct ids
    → IsForward ids e
    → IsRising ids e
IsForward-IsRising ids e distinct (before, (behind, (same, here))) =
    subst (λ z. IsRising z e) (sym same)
      (lt→ltb _ _
        (index_mono before e.source e.target behind (subst IsDistinct same distinct) here))

All-IsRising :
    (ids : List String) (edges : List BrainExecutionGraphEdge)
    → IsDistinct ids
    → All (IsForward ids) edges
    → All (IsRising ids) edges
All-IsRising ids [] distinct h = tt
All-IsRising ids (e ∷ edges) distinct (forward, later) =
    (IsForward-IsRising ids e distinct forward, All-IsRising ids edges distinct later)

Reaches-IsRising :
    (ids : List String) (edges : List BrainExecutionGraphEdge) (a b : String)
    → All (IsRising ids) edges
    → Reaches edges a b
    → index ids a < index ids b
Reaches-IsRising ids edges a b up (Reaches.by_edge s t m) = ltb→lt _ _ (
    All-Mem {P = IsRising ids} (λ e. holds-prop (ltb (index ids e.source) (index ids e.target)))
      edges up (edge s t) m)
Reaches-IsRising ids edges a c up (Reaches.via s t u m way) =
    let first = ltb→lt _ _ (
      All-Mem {P = IsRising ids} (λ e. holds-prop (ltb (index ids e.source) (index ids e.target)))
        edges up (edge s t) m) in
    omega (arith, first, Reaches-IsRising ids edges t u up way)

-- If no two nodes of its execution graph have the same ID, and the steps of a plan wait for steps before
-- them only, or for the intent and the context, then the graph has no cycle: no node reaches itself
-- along the edges.
pub build-IsAcyclic :
    (steps : List BrainPlanStep)
    → IsDistinct (node_ids (build steps).nodes)
    → IsOrdered ("intent" ∷ "context" ∷ []) steps
    → IsAcyclic (build steps).edges
build-IsAcyclic steps distinct ordered = λ id way.
    let up = All-IsRising _ _ distinct (build-IsForward steps ordered) in
    let loop = Reaches-IsRising (node_ids (build steps).nodes) (build steps).edges id id up way in
    absurd (omega (arith, loop))
