-- ===== src/OmniRoute/Policy/Choice.antt =====
-- Which of the eligible routes is chosen (src/jarvis_brain/llm/omniroute/policy.py).
use mathlib.Core.Logic.Or
use mathlib.Core.Logic.{∥∥₁_prop}
use mathlib.Core.List.{mem-cons, not-mem-nil}
use jarvis_brain.Floats.{Floats, less_irrefl}
use jarvis_brain.OmniRoute.Schemas.{OmniRouteRoute, RouteClassification}
use jarvis_brain.OmniRoute.Registry.{list_routes}
use jarvis_brain.OmniRoute.Policy.{
  Failure, OmniRouteSelectionPolicy, hard_filter, score, Candidate, sift, Sifted, place,
  ranks_before, best, choose, select,
}
use jarvis_brain.Prelude.{
  ◌≡◌, refl, sym, subst, ◌≢◌, inl, inr, Bool, true, false, not, none, some, List, [], ◌∷◌, arith,
  if◌then◌else◌, Bool-cases, ◌==◌, nat_eq, string_eq, pair_eq, All, eq_iff, Mem, mem-cons_self,
  mem-cons_of_mem, All-Mem,
}

module _ (fl : Floats) where
  open fl use {Float, ratio, round_to, less, less_asym, less_mono}

  -- A candidate is an eligible route of the list, with its score.
  record IsEligible (policy : OmniRouteSelectionPolicy fl) (c : RouteClassification)
      (routes : List OmniRouteRoute) (a : Candidate fl) : Type 0 where
    listed : Mem a.route routes
    passes : hard_filter fl policy a.route c ≡ []
    scored : a.total ≡ (score fl policy a.route c).0

  module _ (policy : OmniRouteSelectionPolicy fl) (c : RouteClassification) where
    weaken :
        (route : OmniRouteRoute) (routes : List OmniRouteRoute) (candidates : List (Candidate fl))
        → All (IsEligible policy c routes) candidates
        → All (IsEligible policy c (route ∷ routes)) candidates
    weaken route routes [] h = tt
    weaken route routes (a ∷ later) h = (
      record {
        listed = mem-cons_of_mem route h.0.listed;
        passes = h.0.passes;
        scored = h.0.scored;
      },
      weaken route routes later h.1,
    )

    place-IsEligible :
        (route : OmniRouteRoute) (routes : List OmniRouteRoute) (codes : List Failure)
        (sifted : Sifted fl)
        → hard_filter fl policy route c ≡ codes
        → All (IsEligible policy c routes) sifted.1
        → All (IsEligible policy c (route ∷ routes)) (place fl policy c route codes sifted).1
    unfolding place
    place-IsEligible route routes [] (rejected, candidates) e h = (
      record { listed = mem-cons_self; passes = e; scored = refl },
      weaken route routes candidates h,
    )
    place-IsEligible route routes (code ∷ codes) (rejected, candidates) e h =
        weaken route routes candidates h

    sift-IsEligible :
        (routes : List OmniRouteRoute)
        → All (IsEligible policy c routes) (sift fl policy c routes).1
    unfolding sift
    sift-IsEligible [] = tt
    sift-IsEligible (route ∷ later) =
        place-IsEligible route later (hard_filter fl policy route c) (sift fl policy c later) refl
          (sift-IsEligible later)

    -- Every eligible route of the list is among the candidates, with its score.
    candidate_of : OmniRouteRoute → Candidate fl
    candidate_of route = record {
      total = (score fl policy route c).0;
      route = route;
      reasons = (score fl policy route c).1;
    }

    place-complete :
        (route : OmniRouteRoute) (codes : List Failure) (sifted : Sifted fl) (a : Candidate fl)
        → Mem a sifted.1
        → Mem a (place fl policy c route codes sifted).1
    unfolding place
    place-complete route [] (rejected, candidates) a m = mem-cons_of_mem _ m
    place-complete route (code ∷ codes) (rejected, candidates) a m = m

    place_self :
        (route : OmniRouteRoute) (codes : List Failure) (sifted : Sifted fl)
        → codes ≡ []
        → Mem (candidate_of route) (place fl policy c route codes sifted).1
    unfolding place candidate_of
    place_self route [] (rejected, candidates) e = mem-cons_self
    place_self route (code ∷ codes) (rejected, candidates) e = absurd (ground arith)

    sift-complete :
        (routes : List OmniRouteRoute) (route : OmniRouteRoute)
        → Mem route routes
        → hard_filter fl policy route c ≡ []
        → Mem (candidate_of route) (sift fl policy c routes).1
    unfolding sift
    sift-complete [] route m e = absurd (not-mem-nil m)
    sift-complete (r ∷ later) route m e =
        Or.elim ∥∥₁_prop (mem-cons.0 m)
          (λ same.
            subst (λ z. Mem (candidate_of z) (sift fl policy c (r ∷ later)).1) (sym same)
              (place_self r (hard_filter fl policy r c) (sift fl policy c later)
                (subst (λ z. hard_filter fl policy z c ≡ []) same e)))
          (λ rest.
            place-complete r (hard_filter fl policy r c) (sift fl policy c later) _
              (sift-complete later route rest e))

  -- The best of the candidates is one of them, and none has a larger score.
  best-All :
      (P : Candidate fl → Type 0) (a : Candidate fl) (later : List (Candidate fl))
      → P a
      → All P later
      → P (best fl a later)
  unfolding best
  best-All P a [] p h = p
  best-All P a (b ∷ later) p h =
      best-All P (if ranks_before fl b a then b else a) later (pick (ranks_before fl b a)) h.1
    where
      pick : (before : Bool) → P (if before then b else a)
      pick true = h.0
      pick false = p

  holds_not : (b : Bool) → IsProp (b ≡ false)
  holds_not b = hlevel

  abbrev Dominates : Candidate fl → Candidate fl → Type 0
  Dominates a b = less a.total b.total ≡ false

  winner-Dominates :
      (a b : Candidate fl)
      → Dominates (if ranks_before fl b a then b else a) a
        × Dominates (if ranks_before fl b a then b else a) b
  winner-Dominates a b = elim (Bool-cases (ranks_before fl b a)) [
    | inl before ↦
        rw before (ground (arith, before, less_asym a.total b.total), less_irrefl fl b.total)
    | inr behind ↦ rw behind (less_irrefl fl a.total, ground (arith, behind))
  ]

  best-Dominates :
      (a : Candidate fl) (later : List (Candidate fl))
      → Dominates (best fl a later) a × All (Dominates (best fl a later)) later
  unfolding best
  best-Dominates a [] = (less_irrefl fl a.total, tt)
  best-Dominates a (b ∷ later) =
      let (first, others) = best-Dominates (if ranks_before fl b a then b else a) later in
      let (over_a, over_b) = winner-Dominates a b in
      (less_mono _ _ _ first over_a, (less_mono _ _ _ first over_b, others))

  module _ (policy : OmniRouteSelectionPolicy fl) (c : RouteClassification) where
    -- What the answer of `choose` says of the sifted routes that it chose from.
    choose-some :
        (sifted : Sifted fl) (route : OmniRouteRoute)
        → (choose fl sifted).route ≡ some route
        → All (IsEligible policy c (list_routes policy.registry)) sifted.1
        → (a : Candidate fl) × IsEligible policy c (list_routes policy.registry) a
          × (a.route ≡ route)
          × All (Dominates a) sifted.1
    unfolding choose
    choose-some (rejected, []) route e h = absurd (ground arith)
    choose-some (rejected, a ∷ later) route e h =
        (best fl a later, best-All _ a later h.0 h.1, ground (arith, e), best-Dominates a later)

    choose-none : (sifted : Sifted fl) → (choose fl sifted).route ≡ none → sifted.1 ≡ []
    unfolding choose
    choose-none (rejected, []) e = refl
    choose-none (rejected, a ∷ later) e = absurd (ground arith)

    select-choose :
        (route : OmniRouteRoute)
        → (select fl policy c).route ≡ some route
        → (choose fl (sift fl policy c (list_routes policy.registry))).route ≡ some route
    unfolding select
    select-choose route e = elim (Bool-cases (not policy.settings.enabled)) [
      | inl off ↦ absurd (ground (arith, e, off))
      | inr on ↦ elim (Bool-cases (policy.settings.api_key == "")) [
        | inl no_key ↦ absurd (ground (arith, e, on, no_key))
        | inr keyed ↦ ground (arith, e, on, keyed)
      ]
    ]

    -- A selected route is one of the registry's, and passes every hard filter.
    pub select-hard_filter :
        (route : OmniRouteRoute)
        → (select fl policy c).route ≡ some route
        → Mem route (list_routes policy.registry) × (hard_filter fl policy route c ≡ [])
    select-hard_filter route e =
        let (a, eligible, same, most) =
          choose-some _ route (select-choose route e) (sift-IsEligible policy c _) in
        (
          subst (λ r. Mem r (list_routes policy.registry)) same eligible.listed,
          subst (λ r. hard_filter fl policy r c ≡ []) same eligible.passes,
        )

    -- No route of the registry that passes the hard filters has a larger score than the selected one.
    pub select-best :
        (route other : OmniRouteRoute)
        → (select fl policy c).route ≡ some route
        → Mem other (list_routes policy.registry)
        → hard_filter fl policy other c ≡ []
        → less (score fl policy route c).0 (score fl policy other c).0 ≡ false
    unfolding candidate_of
    select-best route other e listed passes =
        let (a, eligible, same, most) =
          choose-some _ route (select-choose route e) (sift-IsEligible policy c _) in
        let over : Dominates a (candidate_of policy c other) =
          All-Mem (λ b. holds_not (less a.total b.total)) _ most _
            (sift-complete policy c _ other listed passes) in
        subst (λ r. less (score fl policy r c).0 (score fl policy other c).0 ≡ false) same
          (subst (λ t. less t (score fl policy other c).0 ≡ false) eligible.scored over)

    -- Nothing is selected by a gateway that is on and has a key only if no route of the registry
    -- passes the hard filters.
    pub select_complete :
        (other : OmniRouteRoute)
        → policy.settings.enabled ≡ true
        → policy.settings.api_key ≢ ""
        → (select fl policy c).route ≡ none
        → Mem other (list_routes policy.registry)
        → hard_filter fl policy other c ≢ []
    unfolding select
    select_complete other on keyed e listed passes = not-mem-nil (
        subst (Mem (candidate_of policy c other))
          (choose-none (sift fl policy c (list_routes policy.registry))
            (ground (arith, e, on, keyed, eq_iff policy.settings.api_key "")))
          (sift-complete policy c _ other listed passes))
