-- ===== src/World/Relevance/Range.antt =====
-- What every score is like (src/jarvis_brain/world/relevance_scorer.py).
use jarvis_brain.Floats.{Floats, less_irrefl, float_min, float_max}
use jarvis_brain.World.Relevance.{
  World, WorldEvent, some_reason, clamp_score, decide_alert, score_with_reasons, is_critical,
}
use jarvis_brain.Prelude.{
  String, ◌≡◌, ◌≢◌, ◌↔◌, ◌⊎◌, true, false, Option, List, [], ◌∷◌, arith, nat_eq, string_eq, pair_eq,
  if-elim,
}

some_reason-not_nil :
    (fl : Floats) (world : World) (reasons : List String) → some_reason fl world reasons ≢ []
some_reason-not_nil fl world [] e = ground (arith, e)
some_reason-not_nil fl world (reason ∷ reasons) e = ground (arith, e)

module _ (fl : Floats) (world : World) where
  open fl use {Float, ratio, round_to, less, less_asym}

  float_max-low : (a b : Float) → less (float_max fl a b) a ≡ false
  float_max-low a b =
      if-elim (λ (r : Float). less r a ≡ false) (less a b) b a (less_asym a b)
        (λ h. less_irrefl fl a)

  float_min-high : (a b : Float) → less a (float_min fl a b) ≡ false
  float_min-high a b =
      if-elim (λ (r : Float). less a r ≡ false) (less b a) b a (less_asym b a)
        (λ h. less_irrefl fl a)

  clamp_score-high :
      less (ratio 0 1) (ratio 1 1) ≡ true
      → (s : Float) → less (ratio 1 1) (clamp_score fl world s) ≡ false
  unfolding clamp_score
  clamp_score-high zero_below s =
      if-elim (λ (r : Float). less (ratio 1 1) r ≡ false)
        (less (ratio 0 1) (float_min fl (ratio 1 1) (round_to 2 s))) _ (ratio 0 1)
        (λ above. float_min-high (ratio 1 1) (round_to 2 s))
        (λ below. less_asym (ratio 0 1) (ratio 1 1) zero_below)

  clamp_score-low : (s : Float) → less (clamp_score fl world s) (ratio 0 1) ≡ false
  unfolding clamp_score
  clamp_score-low s = float_max-low (ratio 0 1) _

module _ (fl : Floats) (world : World) (event : WorldEvent fl world)
    (context : Option (List String)) where
  -- Where 0.0 is below 1.0, every event's score is neither below 0.0 nor above 1.0, it is never without a
  -- reason, and it alerts exactly if the score is not below 0.85; or the event came with an alert and
  -- the score is not below 0.6; or it is critical and its confidence is not below 0.5.
  pub score_with_reasons_lem :
      fl.less (fl.ratio 0 1) (fl.ratio 1 1) ≡ true
      → (fl.less (score_with_reasons fl world event context).relevance_score (fl.ratio 0 1) ≡ false)
        × (fl.less (fl.ratio 1 1) (score_with_reasons fl world event context).relevance_score
            ≡ false)
        × ((score_with_reasons fl world event context).reasons ≢ [])
        × (((score_with_reasons fl world event context).should_alert ≡ true) ↔ (
            (fl.less (score_with_reasons fl world event context).relevance_score (fl.ratio 85 100)
              ≡ false)
            ⊎ (((event.should_alert ≡ true)
                  × (fl.less
                        (score_with_reasons fl world event context).relevance_score
                        (fl.ratio 60 100)
                      ≡ false))
                ⊎ ((is_critical event.severity ≡ true)
                    × (fl.less event.confidence_score (fl.ratio 50 100) ≡ false)))))
  unfolding score_with_reasons decide_alert
  score_with_reasons_lem zero_below = (
    clamp_score-low fl world _,
    clamp_score-high fl world zero_below _,
    some_reason-not_nil fl world _,
    grind arith,
  )
