-- ===== src/Llm/Router/Chain.antt =====
-- What a chain of providers holds (src/jarvis_brain/llm/intelligence_router.py, `_fallback_chain`).
use jarvis_brain.OmniRoute.Signals.{Platform}
use jarvis_brain.Llm.Names.{LlmProviderName, name_eq}
use jarvis_brain.Llm.Router.{
  LlmRouterConfig, local_providers, privacy_allows, dedupe_from, configured_chain, with_requested,
  fallback_chain,
}
use jarvis_brain.Prelude.{
  String, ◌≡◌, refl, ap, ◌≢◌, ◌↔◌, inl, inr, Bool, true, false, not, ◌&&◌, [], ◌∷◌, arith,
  Bool-cases, ◌==◌, nat_eq, string_eq, pair_eq, keep, contains, eq_iff, Mem, contains-Mem,
  contains_of_Mem, if-elim, List, contains-keep,
}

abbrev is_known : LlmProviderName → Bool
is_known name = not (name == LlmProviderName.unknown)

-- No value occurs twice.
abbrev pub IsDistinct : List LlmProviderName → Type 0
IsDistinct [] = Unit
IsDistinct (x ∷ xs) = (contains xs x ≡ false) × IsDistinct xs

module _ (platform : Platform) where
  contains-dedupe_from :
      (seen xs : List LlmProviderName) (a : LlmProviderName)
      → contains (dedupe_from seen xs) a ≡ (contains xs a && not (contains seen a) && is_known a)
  unfolding contains dedupe_from
  contains-dedupe_from seen [] a = refl
  contains-dedupe_from seen (x ∷ xs) a = elim (Bool-cases (x == a)) [
    | inl same ↦
        let at = (name_eq.beq_iff x a).0 same in
        ground (
          arith,
          contains-dedupe_from seen xs a,
          contains-dedupe_from (x ∷ seen) xs a,
          same,
          ap (contains seen) at,
          ap is_known at,
        )
    | inr other ↦
        ground (arith, contains-dedupe_from seen xs a, contains-dedupe_from (x ∷ seen) xs a, other)
  ]

  dedupe_from-IsDistinct : (seen xs : List LlmProviderName) → IsDistinct (dedupe_from seen xs)
  unfolding dedupe_from contains
  dedupe_from-IsDistinct seen [] = tt
  dedupe_from-IsDistinct seen (x ∷ xs) =
      if-elim IsDistinct (not (contains seen x) && not (x == LlmProviderName.unknown))
        (x ∷ dedupe_from (x ∷ seen) xs) (dedupe_from seen xs)
        (λ fresh. (
          ground (arith, contains-dedupe_from (x ∷ seen) xs x, (name_eq.beq_iff x x).1 refl),
          dedupe_from-IsDistinct (x ∷ seen) xs,
        ))
        (λ skipped. dedupe_from-IsDistinct seen xs)

  module _ (config : LlmRouterConfig) (task : platform.LlmTaskType) (privacy : String)
      (requested : LlmProviderName) where
    abbrev pub candidates : List LlmProviderName
    candidates = with_requested requested (configured_chain platform config task privacy)

    contains-fallback_chain :
        (name : LlmProviderName)
        → contains (fallback_chain platform config task privacy requested) name
          ≡ (contains candidates name && privacy_allows platform privacy name && is_known name)
    unfolding fallback_chain contains
    contains-fallback_chain name = ground (
      arith,
      contains-dedupe_from [] (keep (privacy_allows platform privacy) candidates) name,
      contains-keep (privacy_allows platform privacy) candidates name,
    )

    allowed-local :
        privacy ≡ platform.local_only
        → (name : LlmProviderName)
        → privacy_allows platform privacy name ≡ contains local_providers name
    unfolding privacy_allows
    allowed-local own name = ground (arith, (eq_iff privacy platform.local_only).1 own)

    -- The fallback chain names no provider twice. It holds exactly the names, of the configured chain
    -- and the requested provider, that the privacy class allows, without UNKNOWN; and a request that is
    -- LOCAL_ONLY has only local providers in its chain, whatever the configuration and the request ask.
    pub fallback_chain_iff :
        IsDistinct (fallback_chain platform config task privacy requested)
        × ((name : LlmProviderName)
            → (contains (fallback_chain platform config task privacy requested) name ≡ true) ↔ (
                (contains candidates name ≡ true)
                × (privacy_allows platform privacy name ≡ true)
                × (name ≢ LlmProviderName.unknown)))
        × (privacy ≡ platform.local_only
            → (name : LlmProviderName)
            → Mem name (fallback_chain platform config task privacy requested)
            → Mem name local_providers)
    unfolding fallback_chain
    fallback_chain_iff = (
      dedupe_from-IsDistinct [] _,
      λ name. (
        λ there. (
          ground (arith, there, contains-fallback_chain name),
          ground (arith, there, contains-fallback_chain name),
          (λ same. ground (
            arith,
            there,
            contains-fallback_chain name,
            (name_eq.beq_iff name LlmProviderName.unknown).1 same,
          )),
        ),
        λ (listed, allowed, known). ground (
          arith,
          contains-fallback_chain name,
          listed,
          allowed,
          known,
          (name_eq.beq_iff name LlmProviderName.unknown).0,
        ),
      ),
      λ own name here. contains-Mem local_providers name (
          ground (
            arith,
            contains_of_Mem _ name here,
            contains-fallback_chain name,
            allowed-local own name,
          )),
    )
