-- ===== src/Llm/Observatory/Current.antt =====
-- Which route the observatory shows (src/jarvis_brain/llm/routing_observatory.py, `_current_route`).
use mathlib.Core.List.{not-mem-nil}
use mathlib.Core.Option.{some_inj}
use native.Mathlib.Bridge.{le_prop}
use jarvis_brain.Dict.{values}
use jarvis_brain.Llm.Observatory.{
  ActiveLlmRoute, LlmRoutingObservatory, newest, newest_of, or_routes, is_active, current_route,
}
use jarvis_brain.Prelude.{
  ◌≤◌, ◌≡◌, refl, sym, subst, true, some, List, [], ◌∷◌, arith, ltb, ltb→lt, nat_eq, string_eq,
  pair_eq, keep, All, Mem, mem-cons_self, mem-cons_of_mem, keep-Mem, All-Mem, mem_keep, mem_second,
  if-elim,
}

newest-Mem : (r : ActiveLlmRoute) (rest : List ActiveLlmRoute) → Mem (newest r rest) (r ∷ rest)
unfolding newest
newest-Mem r [] = mem-cons_self
newest-Mem r (other ∷ rest) =
    if-elim (λ (x : ActiveLlmRoute). Mem (newest x rest) (r ∷ other ∷ rest))
      (ltb r.started_at other.started_at) other r
      (λ later. mem-cons_of_mem r (newest-Mem other rest))
      (λ kept. mem_second _ r other rest (newest-Mem r rest))

newest_max :
    (r : ActiveLlmRoute) (rest : List ActiveLlmRoute)
    → All (λ x. x.started_at ≤ (newest r rest).started_at) (r ∷ rest)
unfolding newest
newest_max r [] = (omega arith, tt)
newest_max r (other ∷ rest) =
    if-elim
      (λ (x : ActiveLlmRoute).
        All (λ y. y.started_at ≤ (newest x rest).started_at) (r ∷ other ∷ rest))
      (ltb r.started_at other.started_at) other r
      (λ later.
        let (first, others) = newest_max other rest in
        (omega (arith, first, ltb→lt r.started_at other.started_at later), (first, others)))
      (λ kept.
        let (first, others) = newest_max r rest in (first, (ground (arith, first, kept), others)))

module _ (o : LlmRoutingObservatory) where
  abbrev shown : List ActiveLlmRoute
  shown = values o.routes

  abbrev active_ones : List ActiveLlmRoute
  active_ones = keep (λ r. is_active r.state) shown

  -- What is shown of some candidates.
  abbrev pub IsLatest : ActiveLlmRoute → Type 0
  IsLatest r =
      Mem r shown
      × ((other : ActiveLlmRoute)
          → Mem other shown
          → is_active other.state ≡ true
          → (is_active r.state ≡ true) × (other.started_at ≤ r.started_at))

  from_active :
      (candidates : List ActiveLlmRoute)
      → active_ones ≡ candidates
      → (r : ActiveLlmRoute) → newest_of (or_routes candidates shown) ≡ some r
      → IsLatest r
  from_active [] no_active r e = from_all shown refl e
    where
      from_all :
          (routes : List ActiveLlmRoute) → shown ≡ routes → newest_of routes ≡ some r → IsLatest r
      from_all [] same h = absurd (ground (arith, h))
      from_all (x ∷ rest) same h = (
        subst (Mem r) (sym same) (subst (λ z. Mem z (x ∷ rest)) (some_inj.0 h) (newest-Mem x rest)),
        λ other there able. absurd (
            not-mem-nil (
              subst (Mem other) no_active
                (mem_keep (λ y. is_active y.state) shown other there able))),
      )
  from_active (x ∷ rest) e r h = subst IsLatest (some_inj.0 h) (
      let best = newest x rest in
      let (here, able) =
        keep-Mem (λ y. is_active y.state) shown best
          (subst (Mem best) (sym e) (newest-Mem x rest)) in
      (
        here,
        λ other there active. (
          able,
          All-Mem {P = λ y. y.started_at ≤ best.started_at} (λ y. le_prop) (x ∷ rest)
              (newest_max x rest) other
              (subst (Mem other) e (mem_keep (λ y. is_active y.state) shown other there active)),
        ),
      ))

  -- The route that is shown is one of those kept. If any of these is active, the one shown is active
  -- too, and none of the active ones started after it.
  pub current_route-IsLatest : (r : ActiveLlmRoute) → current_route o ≡ some r → IsLatest r
  unfolding current_route
  current_route-IsLatest r e = from_active active_ones refl r e
