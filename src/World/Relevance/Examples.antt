-- ===== src/World/Relevance/Examples.antt =====
-- The scorer's theorem at a security event, over whole numbers.
use jarvis_brain.Floats.{whole}
use jarvis_brain.World.Relevance.{
  World, WorldEvent, WorldEventCategory, WorldEventSeverity, VerificationStatus, score_with_reasons,
  is_critical, sorted_texts, insert_text, words_from,
}
use jarvis_brain.Text.{is_space}
use jarvis_brain.World.Relevance.Range.{score_with_reasons_lem}
use jarvis_brain.Prelude.{
  ◌≡◌, refl, ◌≢◌, ◌↔◌, ◌⊎◌, true, false, none, [], ◌∷◌, nat_eq, string_eq, pair_eq, contains,
}

-- The texts of this example are in lower case.
abbrev plain : World
plain = record {
  category_value = λ category. "cybersecurity";
  severity_value = λ severity. "critical";
  lower = λ text. text;
}

abbrev breach : WorldEvent whole plain
breach = record {
  event_id = "1";
  title = "a breach";
  summary = "of a cloud";
  category = WorldEventCategory.cybersecurity;
  severity = WorldEventSeverity.critical;
  source_name = none;
  tags = "iam" ∷ [];
  verification_status = VerificationStatus.trusted_source;
  confidence_score = 1;
  relevance_score = 0;
  should_alert = true;
}

title_words : words_from "" "a/b cd" ≡ "a" ∷ "b" ∷ "cd" ∷ []
unfolding words_from is_space contains
title_words = refl

tags_sorted : sorted_texts ("cloud" ∷ "ai" ∷ []) ≡ "ai" ∷ "cloud" ∷ []
unfolding sorted_texts insert_text
tags_sorted = refl

score_with_reasons_lem_example :
    (whole.less (score_with_reasons whole plain breach none).relevance_score (whole.ratio 0 1)
      ≡ false)
    × (whole.less (whole.ratio 1 1) (score_with_reasons whole plain breach none).relevance_score
        ≡ false)
    × ((score_with_reasons whole plain breach none).reasons ≢ [])
    × (((score_with_reasons whole plain breach none).should_alert ≡ true) ↔ (
        (whole.less
            (score_with_reasons whole plain breach none).relevance_score
            (whole.ratio 85 100)
          ≡ false)
        ⊎ (((breach.should_alert ≡ true)
              × (whole.less
                    (score_with_reasons whole plain breach none).relevance_score
                    (whole.ratio 60 100)
                  ≡ false))
            ⊎ ((is_critical breach.severity ≡ true)
                × (whole.less breach.confidence_score (whole.ratio 50 100) ≡ false)))))
score_with_reasons_lem_example = score_with_reasons_lem whole plain breach none refl
