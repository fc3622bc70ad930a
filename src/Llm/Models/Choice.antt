-- ===== src/Llm/Models/Choice.antt =====
-- Which model a task is given (src/jarvis_brain/llm/model_registry.py).
use jarvis_brain.OmniRoute.Signals.{Platform}
use jarvis_brain.Llm.Names.{LlmProviderName, name_eq}
use mathlib.Core.List.{not-mem-nil}
use mathlib.Core.Option.{some_inj}
use native.Mathlib.Bridge.{le_prop}
use jarvis_brain.Llm.Models.{
  LlmModelCapability, is_of, serves, or_general, score_for, max_by, choose, chosen_model,
}
use jarvis_brain.Prelude.{
  ℕ, ◌≤◌, ◌≡◌, refl, sym, subst, true, Option, some, List, [], ◌∷◌, arith, ltb, ltb→lt, nat_eq,
  string_eq, pair_eq, keep, All, Mem, mem-cons_self, mem-cons_of_mem, find, find-Mem, keep-Mem,
  All-Mem, if-elim, mem_keep, mem_second,
}

module _ (platform : Platform) where
  open platform use {LlmTaskType, general}

  abbrev Model : Type 0
  Model = LlmModelCapability platform

  max_by-Mem :
      (key : Model → ℕ) (m : Model) (rest : List Model)
      → Mem (max_by platform key m rest) (m ∷ rest)
  unfolding max_by
  max_by-Mem key m [] = mem-cons_self
  max_by-Mem key m (other ∷ rest) =
      if-elim (λ (x : Model). Mem (max_by platform key x rest) (m ∷ other ∷ rest))
        (ltb (key m) (key other)) other m (λ better. mem-cons_of_mem m (max_by-Mem key other rest))
        (λ kept. mem_second _ m other rest (max_by-Mem key m rest))

  max_by_ge :
      (key : Model → ℕ) (m : Model) (rest : List Model) → key m ≤ key (max_by platform key m rest)
  unfolding max_by
  max_by_ge key m [] = omega arith
  max_by_ge key m (other ∷ rest) =
      if-elim (λ (x : Model). key m ≤ key (max_by platform key x rest)) (ltb (key m) (key other))
        other m
        (λ better. omega (arith, max_by_ge key other rest, ltb→lt (key m) (key other) better))
        (λ kept. max_by_ge key m rest)

  -- No candidate has a higher score than the one that is taken.
  max_by_max :
      (key : Model → ℕ) (m : Model) (rest : List Model)
      → All (λ x. key x ≤ key (max_by platform key m rest)) (m ∷ rest)
  unfolding max_by
  max_by_max key m [] = (omega arith, tt)
  max_by_max key m (other ∷ rest) =
      if-elim
        (λ (x : Model). All (λ y. key y ≤ key (max_by platform key x rest)) (m ∷ other ∷ rest))
        (ltb (key m) (key other)) other m
        (λ better.
          let (first, later) = max_by_max key other rest in
          (omega (arith, first, ltb→lt (key m) (key other) better), (first, later)))
        (λ kept.
          let (first, later) = max_by_max key m rest in
          (first, (ground (arith, first, kept), later)))

  abbrev pub IsBest : List Model → LlmProviderName → LlmTaskType → Model → Type 0
  IsBest models provider task m =
      Mem m models
      × (m.provider ≡ provider)
      × ((other : Model)
          → Mem other models
          → serves platform provider task other ≡ true
          → (serves platform provider task m ≡ true)
            × (score_for platform task other ≤ score_for platform task m))

  module _ (models : List Model) (provider : LlmProviderName) (task : LlmTaskType) where
    abbrev first_of : Option Model
    first_of = find (is_of platform provider) models

    abbrev exact : List Model
    exact = keep (serves platform provider task) models

    abbrev usual : List Model
    usual = keep (serves platform provider general) models

    is_of-IsBest :
        (m : Model)
        → exact ≡ []
        → Mem m models
        → is_of platform provider m ≡ true
        → IsBest models provider task m
    is_of-IsBest m none_serves here own = (
      here,
      (name_eq.beq_iff m.provider provider).0 own,
      λ other there able. absurd (
          not-mem-nil (
            subst (Mem other) none_serves
              (mem_keep (serves platform provider task) models other there able))),
    )

    max_by-IsBest :
        (m : Model) (rest : List Model)
        → exact ≡ m ∷ rest
        → IsBest models provider task (max_by platform (score_for platform task) m rest)
    max_by-IsBest m rest e =
        let best = max_by platform (score_for platform task) m rest in
        let (here, able) =
          keep-Mem (serves platform provider task) models best
            (subst (Mem best) (sym e) (max_by-Mem (score_for platform task) m rest)) in
        (
          here,
          (name_eq.beq_iff best.provider provider).0 (ground (arith, able)),
          λ other there serving. (
            able,
            All-Mem {P = λ x. score_for platform task x ≤ score_for platform task best}
                (λ x. le_prop) (m ∷ rest) (max_by_max (score_for platform task) m rest) other
                (subst (Mem other) e
                  (mem_keep (serves platform provider task) models other there serving)),
          ),
        )

    usual-IsBest :
        (candidates : List Model)
        → usual ≡ candidates
        → exact ≡ []
        → (m : Model) → choose platform task first_of candidates ≡ some m
        → IsBest models provider task m
    usual-IsBest [] e none_serves m chosen =
        let (here, own) = find-Mem (is_of platform provider) models chosen in
        is_of-IsBest m none_serves here own
    usual-IsBest (x ∷ rest) e none_serves m chosen =
        let best = max_by platform (score_for platform task) x rest in
        let (here, able) =
          keep-Mem (serves platform provider general) models best
            (subst (Mem best) (sym e) (max_by-Mem (score_for platform task) x rest)) in
        subst (IsBest models provider task) (some_inj.0 chosen)
          (is_of-IsBest best none_serves here (ground (arith, able)))

    exact-IsBest :
        (candidates : List Model)
        → exact ≡ candidates
        → (m : Model)
        → choose platform task first_of (or_general platform candidates usual) ≡ some m
        → IsBest models provider task m
    exact-IsBest [] none_serves m chosen = usual-IsBest usual refl none_serves m chosen
    exact-IsBest (x ∷ rest) e m chosen =
        subst (IsBest models provider task) (some_inj.0 chosen) (max_by-IsBest x rest e)

    -- The model whose name `select_model` returns is one of the registry's and the provider's. If any
    -- model of the provider does the task, it does the task too, and no model of the provider that does
    -- the task has a higher score for it: the score for code on coding tasks, for reasoning otherwise.
    pub chosen_model-IsBest :
        (m : Model)
        → chosen_model platform models provider task ≡ some m
        → IsBest models provider task m
    unfolding chosen_model
    chosen_model-IsBest m chosen = exact-IsBest exact refl m chosen
