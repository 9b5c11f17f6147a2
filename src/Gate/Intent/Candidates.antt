-- ===== src/Gate/Intent/Candidates.antt =====
-- The entries that a declared intent is matched with.
use mcp_assist_memory.Prelude.{
  ℕ, Text, codes, Bool, false, not, Option, none, some, List, [], ◌∷◌, ◌++◌, ◌&&◌, ◌||◌, leb,
  text_eq, mem_text, starts_with, keep, any, take, map, length, is_some, or_else, if◌then◌else◌,
  String,
}
use mcp_assist_memory.Json.{Json, str, get, truthy}
use mcp_assist_memory.Retrieval.{apply_guard}
use mcp_assist_memory.Store.Rows.{Row, Table}
use mcp_assist_memory.Store.Listing.{distinct_on_key, like, shown}
use mcp_assist_memory.Store.Search.{Ranking, Engine, in_house}
use mcp_assist_memory.Gate.Skills.{skill_prefix, meta_of}

-- What the retrieval of an intent rests on, beside the search engine.
pub record Retriever (ranking : Ranking) : Type 0 where
  pub engine : Engine ranking
  -- `round(similarity, 3)`
  pub rounded : ranking.Score → ranking.Score
  pub hard_floor : ranking.Score
  -- `content_tokens`, as a list without repetitions
  pub tokens_in : Text → List Text

-- a match: the row, its similarity and its flags
pub record Match (Score : Type 0) : Type 0 where
  pub row : Row
  pub similarity : Option Score
  pub flags : List String

abbrev pub gate_pattern : Text
gate_pattern = codes "gate/%"

module _ (ranking : Ranking) (retriever : Retriever ranking) where
  open ranking use {Score, lt, zero_score, one_minus}
  open retriever use {engine, rounded, hard_floor, tokens_in}

  abbrev pub match_entry : Row → Option Score → Match Score
  match_entry r none = record { row = r; similarity = none; flags = [] }
  match_entry r (some s) = record { row = r; similarity = some (rounded s); flags = [] }

  -- the rows that the ANN query ranks
  unfoldable pub semantic_rows : ℕ → Text → Bool → Table → List Row
  unfolding distinct_on_key in_house
  semantic_rows now ns include_quarantined t =
      keep
        (λ r.
          shown engine.order now include_quarantined r
          && (not (in_house r.key || like gate_pattern r.key) && is_some r.embedding))
        (distinct_on_key engine.order (keep (λ r. text_eq ns r.namespace) t))

  -- `if sim >= RETRIEVAL_HARD_FLOOR: out.append(…)`
  unfoldable pub above_floor : List (Row × Score) → List (Match Score)
  above_floor [] = []
  above_floor ((r, d) ∷ l) =
      let more = above_floor l in
      if lt (one_minus d) hard_floor then more else match_entry r (some (one_minus d)) ∷ more

  abbrev pub candidates_for : Option Text → List Row → List (Match Score)
  candidates_for none rows = []
  candidates_for (some vector) rows = above_floor (engine.nearest vector (λ r. r.embedding) 8 rows)

  unfoldable pub semantic_candidates : ℕ → Text → Text → Bool → Table → List (Match Score)
  unfolding semantic_rows above_floor
  semantic_candidates now ns goal include_quarantined t =
      candidates_for (engine.embed_query goal) (semantic_rows now ns include_quarantined t)

  abbrev pub text_or_empty : Option Json → Text
  text_or_empty (some (str s)) = s
  text_or_empty _ = []

  -- `len(goal_tokens & content_tokens(trigger)) >= TRIGGER_OVERLAP_MIN`, for a trigger that does not
  -- raise
  unfoldable pub overlaps : List Text → Row → Bool
  overlaps goal_tokens r = leb 2 (
      length (
        keep
          (λ token.
            mem_text token
              (tokens_in (text_or_empty (get (codes "trigger_intent") (meta_of (some r))))))
          goal_tokens))

  -- the latest live skills
  unfoldable pub skill_rows : ℕ → Text → Bool → Table → List Row
  unfolding distinct_on_key
  skill_rows now ns include_quarantined t = take 200 (
      keep (shown engine.order now include_quarantined) (
        distinct_on_key engine.order
          (keep (λ r. text_eq ns r.namespace && starts_with r.key skill_prefix) t)))

  abbrev pub overlapping : List Text → List Row → List (Match Score)
  overlapping [] rows = []
  overlapping (k ∷ ks) rows = map (λ r. match_entry r none) (keep (overlaps (k ∷ ks)) rows)

  -- a value that `content_tokens` takes for a text although it is none: its `lower` raises
  abbrev is_no_text : Option Json → Bool
  is_no_text none = false
  is_no_text (some (str s)) = false
  is_no_text (some v) = truthy v

  abbrev pub raises_over : List Text → List Row → Bool
  raises_over [] rows = false
  raises_over (k ∷ ks) rows =
      any (λ r. is_no_text (get (codes "trigger_intent") (meta_of (some r)))) rows

  -- whether `_trigger_candidates` raises `AttributeError`
  unfoldable pub trigger_scan_raises : ℕ → Text → Text → Bool → Table → Bool
  unfolding skill_rows
  trigger_scan_raises now ns goal include_quarantined t =
      raises_over (tokens_in goal) (skill_rows now ns include_quarantined t)

  unfoldable pub trigger_candidates : ℕ → Text → Text → Bool → Table → List (Match Score)
  unfolding skill_rows overlaps
  trigger_candidates now ns goal include_quarantined t =
      overlapping (tokens_in goal) (skill_rows now ns include_quarantined t)

  -- `_guarded_candidates`
  unfoldable pub guarded_candidates : List (Match Score) → List (Match Score)
  guarded_candidates cs =
      map (λ x. x.0)
        (apply_guard ranking.scores engine.guard
          (map (λ m. (m, some (or_else m.similarity zero_score))) cs)).admitted

  -- `if cand["key"] not in seen: …`
  unfoldable pub add_unseen : List (Match Score) → List (Match Score) → List (Match Score)
  add_unseen matched [] = matched
  add_unseen matched (c ∷ cs) =
      add_unseen
        (if any (λ m. text_eq m.row.key c.row.key) matched then matched else matched ++ c ∷ []) cs

  -- what `intent_open` matches a goal with; a clinical namespace has no semantic leg
  unfoldable pub matched_with : ℕ → Text → Text → Bool → Bool → Table → List (Match Score)
  unfolding semantic_candidates trigger_candidates guarded_candidates add_unseen
  matched_with now ns goal clinical include_quarantined t =
      add_unseen
        (add_unseen [] (
          guarded_candidates
            (if clinical then [] else semantic_candidates now ns goal include_quarantined t)))
        (trigger_candidates now ns goal include_quarantined t)
