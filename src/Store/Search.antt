-- ===== src/Store/Search.antt =====
-- `memory_search`, `_rrf_fuse` and `_guard_search_rows` of storage/postgres.py. Floats, the vector
-- index, the text match of Postgres and the embedder are parameters; a row is returned as it stands
-- in the table, with the verdict of the guard.
pub mod Fuse
pub mod Guarded
pub mod Found
pub mod Tests
use mcp_assist_memory.Prelude.{
  ℕ, suc, ◌+◌, Text, codes, Bool, true, false, not, Option, none, some, List, [], ◌∷◌, ◌++◌, ◌&&◌,
  ◌||◌, ltb, ◌==◌, text_eq, keep, find, take, map, is_some, if◌then◌else◌,
}
use mcp_assist_memory.Json.{Json, text_lt}
use mcp_assist_memory.Retrieval
use mcp_assist_memory.Retrieval.{Scores, Guard, RetrievalVerdict, apply_guard}
use mcp_assist_memory.Store.Rows.{Row, Table, is_live}
use mcp_assist_memory.Store.Listing.{Collation, distinct_on_key, like, shown, meta_pattern}

-- Scores with the arithmetic of the ranking.
pub record Ranking : Type 1 where
  pub scores : Scores
  pub open scores use *
  pub add : Score → Score → Score
  -- `1.0 / n`
  pub share : ℕ → Score
  -- `1.0 - d`
  pub one_minus : Score → Score

abbrev pub rrf_k : ℕ
rrf_k = 60

abbrev pub reconcile_pattern : Text
reconcile_pattern = codes "coord/\\_reconcile/%"

-- `key NOT LIKE … AND key NOT LIKE …` with `_SEARCH_EXCLUDE_LIKE`
unfoldable pub in_house : Text → Bool
in_house key = like reconcile_pattern key || like meta_pattern key

module _ (ranking : Ranking) where
  open ranking use {Score, lt, zero_score, add, share, one_minus}

  -- What the loop keeps under a key: `scores`, `best_rank` and `rows_by_key`.
  pub record Ranked : Type 0 where
    pub row : Row
    pub score : Score
    pub best_rank : ℕ

  abbrev pub raise_rank : ℕ → Ranked → Ranked
  raise_rank rank e = record {
    row = e.row;
    score = add e.score (share (rrf_k + rank));
    best_rank = if ltb rank e.best_rank then rank else e.best_rank;
  }

  -- one round of the inner loop
  unfoldable pub count_row : ℕ → Row → List Ranked → List Ranked
  count_row rank r [] =
      record { row = r; score = add zero_score (share (rrf_k + rank)); best_rank = rank } ∷ []
  count_row rank r (e ∷ l) =
      if text_eq e.row.key r.key then raise_rank rank e ∷ l else e ∷ count_row rank r l

  unfoldable pub count_leg : ℕ → List Row → List Ranked → List Ranked
  unfolding count_row
  count_leg rank [] l = l
  count_leg rank (r ∷ rs) l = count_leg (suc rank) rs (count_row rank r l)

  unfoldable pub count_legs : List (List Row) → List Ranked → List Ranked
  unfolding count_leg
  count_legs [] l = l
  count_legs (leg ∷ legs) l = count_legs legs (count_leg 1 leg l)

  -- the order by (-score, best_rank, key)
  unfoldable pub ahead : Ranked → Ranked → Bool
  ahead a b =
      if lt b.score a.score
      then true
      else if lt a.score b.score
      then false
      else if ltb a.best_rank b.best_rank
      then true
      else if ltb b.best_rank a.best_rank
      then false
      else text_lt a.row.key b.row.key

  unfoldable pub place_ranked : Ranked → List Ranked → List Ranked
  place_ranked e [] = e ∷ []
  place_ranked e (f ∷ l) = if ahead f e then f ∷ place_ranked e l else e ∷ f ∷ l

  unfoldable pub sort_ranked : List Ranked → List Ranked
  unfolding place_ranked
  sort_ranked [] = []
  sort_ranked (e ∷ l) = place_ranked e (sort_ranked l)

  unfoldable pub rrf_fuse : List (List Row) → ℕ → List Row
  unfolding count_legs sort_ranked
  rrf_fuse legs limit = map (λ e. e.row) (take limit (sort_ranked (count_legs legs [])))

  -- the best cosine of a key over the semantic legs
  unfoldable pub cosine_of : Text → List (Row × Score) → Option Score → Option Score
  cosine_of key [] best = best
  cosine_of key ((r, d) ∷ l) best =
      cosine_of key l
        (if text_eq r.key key then Retrieval.larger ranking.scores best (one_minus d) else best)

  -- What the search rests on: the embedder, the vector index, which may return any of the rows that
  -- it is asked to rank, and `value::text ILIKE`.
  pub record Engine : Type 0 where
    pub order : Collation
    pub embed_query : Text → Option Text
    pub nearest : Text → (Row → Option Text) → ℕ → List Row → List (Row × Score)
    pub value_has : Text → Json → Bool
    pub guard : Guard ranking.scores

  module _ (engine : Engine) where
    open engine use {order, embed_query, nearest, value_has, guard}

    -- the latest live rows of a namespace that a search may show
    unfoldable pub candidates : ℕ → Text → Bool → Table → List Row
    unfolding in_house distinct_on_key
    candidates now ns include_quarantined t =
        keep (λ r. shown order now include_quarantined r && not (in_house r.key))
          (distinct_on_key order (keep (λ r. text_eq ns r.namespace) t))

    unfoldable pub semantic_leg : ℕ → Text → (Row → Option Text) → List Row → List (Row × Score)
    semantic_leg limit vector column rows =
        nearest vector column limit (keep (λ r. is_some (column r)) rows)

    unfoldable pub keyword_leg : ℕ → Text → List Row → List Row
    keyword_leg limit query rows = take limit (keep (λ r. value_has query r.value) rows)

    -- `{e["key"]: v for e, v in outcome.all_scored}`, read at a key
    unfoldable pub verdict_of :
        Text
        → List (Row × RetrievalVerdict ranking.scores)
        → Option (RetrievalVerdict ranking.scores)
    verdict_of key [] = none
    verdict_of key ((r, v) ∷ l) =
        let later = verdict_of key l in
        if is_some later then later else if text_eq r.key key then some v else none

    abbrev pub Result : Type 0
    Result = Row × Option (RetrievalVerdict ranking.scores)

    unfoldable pub guard_search_rows : List Row → List (Row × Score) → List Result
    unfolding verdict_of cosine_of
    guard_search_rows entries scored =
        let outcome =
          apply_guard ranking.scores guard (map (λ r. (r, cosine_of r.key scored none)) entries) in
        map (λ r. (r, verdict_of r.key (outcome.admitted ++ outcome.rejected))) entries

    abbrev pub rows_of : List (Row × Score) → List Row
    rows_of l = map (λ x. x.0) l

    -- the search once it is known whether the query has a vector
    unfoldable pub search_with : Option Text → Text → ℕ → List Row → List Result
    unfolding semantic_leg keyword_leg guard_search_rows rrf_fuse
    search_with none query limit rows =
        guard_search_rows (take limit (keyword_leg limit query rows)) []
    search_with (some vector) query limit rows =
        let semantic = semantic_leg limit vector (λ r. r.embedding) rows in
        let hyde = semantic_leg limit vector (λ r. r.hyde_embedding) rows in
        let keyword = keyword_leg limit query rows in
        guard_search_rows (rrf_fuse (rows_of semantic ∷ rows_of hyde ∷ keyword ∷ []) limit)
          (semantic ++ hyde)

    unfoldable pub memory_search : ℕ → Text → Text → ℕ → Bool → Table → List Result
    unfolding search_with candidates
    memory_search now ns query limit include_quarantined t =
        search_with (embed_query query) query limit (candidates now ns include_quarantined t)
