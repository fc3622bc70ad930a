-- ===== src/Engine/Planner/Examples.antt =====
-- The planner's theorem at a goal with two parts.
use jarvis_brain.Prelude.{String, nat_eq, string_eq, pair_eq}

abbrev lower : String → String
lower text = text

abbrev goal : String
goal = " plan my day and email "
