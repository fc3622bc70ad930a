-- ===== src/Llm/Router/Rounds.antt =====
-- Which providers get a request of `generate`, and how often (src/jarvis_brain/llm/intelligence_router.py).
mod Counted
unfoldable pub use Counted.*
use jarvis_brain.Floats.{Floats}
use jarvis_brain.OmniRoute.Schemas.{OmniRouteRoute}
use jarvis_brain.OmniRoute.Signals.{Platform}
use jarvis_brain.Dict.{Dict}
use jarvis_brain.Llm.Names.{LlmProviderName}
use jarvis_brain.Llm.Providers.{create_provider}
use jarvis_brain.Llm.Router.{Provider, asked, IntelligenceRouter, Facts, model_for}
use jarvis_brain.Llm.Router.Generate.{Response, Calls, succeeded, attempts}
use jarvis_brain.Prelude.{
  ℕ, ◌≤◌, ◌<◌, ◌≡◌, Bool, true, false, Option, none, some, List, [], ◌∷◌, ◌++◌, nat_eq, string_eq,
  pair_eq, ◌⊎◌,
}

module _ (platform : Platform) (fl : Floats) where
  -- The providers that a run asked, in order, once for each request that it sent.
  unfoldable pub asked_by : Calls platform fl → List (Provider platform fl)
  asked_by [] = []
  asked_by (asked provider ∷ calls) = provider ∷ asked_by calls
  asked_by (call ∷ calls) = asked_by calls

  abbrev pub is_there : Provider platform fl → Bool
  is_there p = p.is_available

  -- Asked at least once and at most `limit` times.
  abbrev WasAsked : ℕ → Provider platform fl → Calls platform fl → Type 0
  WasAsked limit p calls = (n : ℕ) × ((0 < n) × ((n ≤ limit) × (asked_by calls ≡ times n p)))

  -- Asked `left` times without an answer, or up to the answer.
  abbrev WasTried : ℕ → Provider platform fl → Response platform fl × Calls platform fl → Type 0
  WasTried left p (response, calls) =
      ((succeeded platform fl response ≡ false) × (asked_by calls ≡ times left p))
      ⊎ ((succeeded platform fl response ≡ true) × WasAsked left p calls)

  -- The round of one provider, by its answer: it is not there, or was asked `limit` times in vain, or
  -- was asked until it answered.
  abbrev IsRoundOf :
      ℕ
      → Provider platform fl
      → Option (Response platform fl)
      → List (Provider platform fl)
      → Type 0
  IsRoundOf limit p none found =
      ((is_there p ≡ false) × (found ≡ [])) ⊎ ((is_there p ≡ true) × (found ≡ times limit p))
  IsRoundOf limit p (some response) found =
      (is_there p ≡ true) × ((n : ℕ) × ((0 < n) × ((n ≤ limit) × (found ≡ times n p))))

  abbrev IsRound :
      ℕ → Provider platform fl → Option (Response platform fl) × Calls platform fl → Type 0
  IsRound limit p run = IsRoundOf limit p run.0 (asked_by run.1)

  module _ (router : IntelligenceRouter platform fl) where
    abbrev limit : ℕ
    limit = attempts platform fl router

    abbrev Rounds : List (Provider platform fl) → List (Provider platform fl) → Type 0
    Rounds planned found = AreRounds is_there limit planned found

    -- The providers of the chain that are there, in its order.
    unfoldable pub chain_providers :
        Facts platform fl → List LlmProviderName → List (Provider platform fl)
    chain_providers facts [] = []
    chain_providers facts (name ∷ names) =
        listed (
          create_provider _ _ router.provider_registry name
            (model_for platform fl router facts name))
        ++ chain_providers facts names

    -- The gateway's client, if a route is selected.
    abbrev pub gateway_providers : Bool → Option OmniRouteRoute → List (Provider platform fl)
    gateway_providers true (some route) = router.provider_registry.gateway_provider route ∷ []
    gateway_providers true none = []
    gateway_providers false route = []
