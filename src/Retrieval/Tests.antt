-- ===== src/Retrieval/Tests.antt =====
-- The guard on scores that are percentages.
use mcp_assist_memory.Prelude.{arith, ℕ, ◌*◌, ◌/◌, Option, none, some, List, [], ◌∷◌, ltb}
use mcp_assist_memory.Retrieval.{Scores, Guard, apply_guard, top_of}
use mcp_assist_memory.Retrieval.Top.{IsOrdered}
use mcp_assist_memory.Retrieval.Laws.{IsJudged, apply_guard-IsJudged}

abbrev percent : Scores
percent = record { Score = ℕ; lt = ltb; times = λ a b. (a * b) / 100; zero_score = 0 }

abbrev guard : Guard percent
guard = record { absolute_floor = 45; alpha = 85 }

abbrev found : List (ℕ × Option ℕ)
found = (1, some 90) ∷ (2, some 50) ∷ (3, some 30) ∷ (4, none) ∷ []

percent-IsOrdered : IsOrdered percent
percent-IsOrdered = record {
  irreflexive = λ a. ground arith;
  asymmetric = λ a b h. ground arith;
  negatively_transitive = λ a b c h k. ground arith;
}

apply_guard-IsJudged_example :
    IsJudged percent guard (top_of percent none found) found (apply_guard percent guard found)
apply_guard-IsJudged_example = apply_guard-IsJudged percent guard found percent-IsOrdered
