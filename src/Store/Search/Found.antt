-- ===== src/Store/Search/Found.antt =====
-- What a search returns: latest live rows, each once, each with the verdict of the guard.
use mcp_assist_memory.Prelude.{
  ℕ, ◌≤◌, Text, Bool, true, false, not, Option, none, some, List, [], ◌∷◌, ◌++◌, ◌&&◌, text_eq,
  keep, take, map, length, length-take-le, is_some, All, All-In, In-All, All-take, All-keep,
  All-map, In, In-keep_cases, ◌≡◌, refl, arith,
}
use mcp_assist_memory.Retrieval.Top.{IsOrdered}
use mcp_assist_memory.Store.Rows.{Row, Table}
use mcp_assist_memory.Store.Reads.{memory_get}
use mcp_assist_memory.Store.Listing.{distinct_on_key, shown}
use mcp_assist_memory.Store.Listing.Latest.{In-distinct_on_key, memory_get-latest, before-ne}
use mcp_assist_memory.Store.Search.{
  Ranking, Engine, Result, in_house, candidates, semantic_leg, keyword_leg, guard_search_rows,
  rows_of, rrf_fuse, search_with, memory_search,
}
use mcp_assist_memory.Store.Listing.Sorted.{
  AllAfter, IsSorted, keep-IsSorted, distinct_on_key-IsSorted,
}
use mcp_assist_memory.Store.Search.Guarded.{
  IsGuarded, IsScored, top_score, search-IsScored, guarded-rows, guard_search_rows-judged,
}
use mcp_assist_memory.Store.Search.Fuse.{
  NoKey, NoKeyTwice, text_eq_comm, take-NoKeyTwice, rrf_fuse-All, rrf_fuse-NoKeyTwice,
  length-rrf_fuse-le,
}

module _ (ranking : Ranking) (engine : Engine ranking) where
  open ranking use {Score}
  open engine use {order, nearest, guard}

  -- A row that a search of the namespace may show: `memory_get` of its key returns it, and the key is
  -- not the server's own.
  abbrev pub IsFound : ℕ → Text → Bool → Table → Row → Type 0
  IsFound now ns include_quarantined t r =
      (memory_get now ns r.key include_quarantined t ≡ some r) × (in_house r.key ≡ false)

  candidates-IsFound :
      (now : ℕ) (ns : Text) (include_quarantined : Bool) (t : Table)
      → All
          (IsFound now ns include_quarantined t)
          (candidates ranking engine now ns include_quarantined t)
  unfolding candidates
  candidates-IsFound now ns iq t =
      let all = distinct_on_key order (keep (λ r. text_eq ns r.namespace) t) in
      In-All (IsFound now ns iq t) (keep (λ r. shown order now iq r && not (in_house r.key)) all)
        (λ r m.
          let (a, b) = In-keep_cases (λ x. shown order now iq x && not (in_house x.key)) r all m in
          let (c, d) = both (shown order now iq r) (in_house r.key) b in
          ((memory_get-latest order now ns iq r t).1 ((In-distinct_on_key order ns r t).0 a, c), d))
    where
      both : (a b : Bool) → (a && not b) ≡ true → (a ≡ true) × (b ≡ false)
      both a b h = ground arith

  -- The vector index returns rows that it was given.
  abbrev pub IsIndex : Type 0
  IsIndex =
      (vector : Text) (column : Row → Option Text) (limit : ℕ) (rows : List Row)
      → All (λ x. In x.0 rows) (nearest vector column limit rows)

  module _ (P : Row → Type 0) where
    semantic_leg-All :
        (limit : ℕ) (vector : Text) (column : Row → Option Text) (rows : List Row)
        → IsIndex
        → All P rows
        → All P (rows_of ranking engine (semantic_leg ranking engine limit vector column rows))
    unfolding semantic_leg
    semantic_leg-All limit vector column rows index a =
        let some_rows = keep (λ r. is_some (column r)) rows in
        let kept = All-keep P (λ r. is_some (column r)) rows a in
        All-map P (λ (x : Row × Score). x.0) (nearest vector column limit some_rows)
          (weaken (nearest vector column limit some_rows) some_rows
            (index vector column limit some_rows) kept)
      where
        weaken :
            (l : List (Row × Score)) (rs : List Row)
            → All (λ x. In x.0 rs) l
            → All P rs
            → All (λ x. P x.0) l
        weaken [] rs h k = tt
        weaken (x ∷ l) rs (m, h) k = (All-In P x.0 rs k m, weaken l rs h k)

    keyword_leg-All :
        (limit : ℕ) (query : Text) (rows : List Row)
        → All P rows
        → All P (keyword_leg ranking engine limit query rows)
    unfolding keyword_leg
    keyword_leg-All limit query rows a =
        All-take P limit (keep (λ r. engine.value_has query r.value) rows) (All-keep P _ rows a)

  candidates-IsSorted :
      (now : ℕ) (ns : Text) (include_quarantined : Bool) (t : Table)
      → IsSorted order (candidates ranking engine now ns include_quarantined t)
  unfolding candidates
  candidates-IsSorted now ns iq t =
      let all = distinct_on_key order (keep (λ r. text_eq ns r.namespace) t) in
      keep-IsSorted order (λ r. shown order now iq r && not (in_house r.key)) all
        (distinct_on_key-IsSorted order (keep (λ r. text_eq ns r.namespace) t))

  IsSorted-NoKeyTwice : (l : List Row) → IsSorted order l → NoKeyTwice l
  IsSorted-NoKeyTwice [] a = tt
  IsSorted-NoKeyTwice (r ∷ l) (a, b) = (fresh r.key l a, IsSorted-NoKeyTwice l b)
    where
      fresh : (k : Text) (rs : List Row) → AllAfter order k rs → NoKey k rs
      fresh k [] h = tt
      fresh k (s ∷ rs) (h, g) = (text_eq_comm k s.key (before-ne order k s.key h), fresh k rs g)

  -- the rows of a search before they are guarded
  unfoldable pub searched : Option Text → Text → ℕ → List Row → List Row
  searched none query limit rows = take limit (keyword_leg ranking engine limit query rows)
  searched (some vector) query limit rows =
      rrf_fuse ranking
        (rows_of ranking engine (semantic_leg ranking engine limit vector (λ r. r.embedding) rows)
          ∷ rows_of ranking engine
              (semantic_leg ranking engine limit vector (λ r. r.hyde_embedding) rows)
          ∷ keyword_leg ranking engine limit query rows
          ∷ [])
        limit

  searched-All :
      (P : Row → Type 0) (vector : Option Text) (query : Text) (limit : ℕ) (rows : List Row)
      → IsIndex
      → All P rows
      → All P (searched vector query limit rows)
  unfolding searched
  searched-All P none query limit rows index a =
      All-take P limit (keyword_leg ranking engine limit query rows)
        (keyword_leg-All P limit query rows a)
  searched-All P (some vector) query limit rows index a = rrf_fuse-All ranking P _ limit (
    semantic_leg-All P limit vector (λ r. r.embedding) rows index a,
    (
      semantic_leg-All P limit vector (λ r. r.hyde_embedding) rows index a,
      (keyword_leg-All P limit query rows a, tt),
    ),
  )

  searched-NoKeyTwice :
      (vector : Option Text) (query : Text) (limit : ℕ) (rows : List Row)
      → IsSorted order rows
      → NoKeyTwice (searched vector query limit rows)
  unfolding searched keyword_leg
  searched-NoKeyTwice none query limit rows a =
      let kept = keep (λ r. engine.value_has query r.value) rows in
      take-NoKeyTwice ranking limit (take limit kept) (
        take-NoKeyTwice ranking limit kept (
          IsSorted-NoKeyTwice kept
            (keep-IsSorted order (λ r. engine.value_has query r.value) rows a)))
  searched-NoKeyTwice (some vector) query limit rows a = rrf_fuse-NoKeyTwice ranking _ limit

  length-searched-le :
      (vector : Option Text) (query : Text) (limit : ℕ) (rows : List Row)
      → length (searched vector query limit rows) ≤ limit
  unfolding searched
  length-searched-le none query limit rows =
      length-take-le limit (keyword_leg ranking engine limit query rows)
  length-searched-le (some vector) query limit rows = length-rrf_fuse-le ranking _ limit

  -- what the two semantic legs of a search find, with distances: the rows that the index ranks among
  -- those with an embedding, and among those with an embedding of a question
  abbrev pub legs : Option Text → ℕ → List Row → List (Row × Score)
  legs none limit rows = []
  legs (some vector) limit rows =
      nearest vector (λ r. r.embedding) limit (keep (λ r. is_some r.embedding) rows)
      ++ nearest vector (λ r. r.hyde_embedding) limit (keep (λ r. is_some r.hyde_embedding) rows)

  search_with-guarded :
      (vector : Option Text) (query : Text) (limit : ℕ) (rows : List Row)
      → search_with ranking engine vector query limit rows
        ≡ guard_search_rows ranking engine
            (searched vector query limit rows)
            (legs vector limit rows)
  unfolding search_with searched semantic_leg
  search_with-guarded none query limit rows = refl
  search_with-guarded (some vector) query limit rows = refl

  -- the rows of the results
  abbrev pub found_rows : List (Result ranking engine) → List Row
  found_rows l = map (λ (x : Result ranking engine). x.0) l

  -- Whatever the embedder answers, where the vector index returns rows that it was given and `<` on
  -- the scores is a strict weak order: a search returns no more rows than the limit and no key twice;
  -- `memory_get` of the key of a row returns that row, and the key is not the server's own; and every
  -- row carries the verdict that the guard gives to the largest cosine of its key in the semantic legs
  -- (to no cosine without a vector), by a top score that is the largest of these among the rows.
  pub memory_search-IsFound :
      (now : ℕ) (ns query : Text) (limit : ℕ) (include_quarantined : Bool) (t : Table)
      → IsIndex
      → IsOrdered ranking.scores
      → All
          (IsFound now ns include_quarantined t)
          (found_rows (memory_search ranking engine now ns query limit include_quarantined t))
        × NoKeyTwice
            (found_rows (memory_search ranking engine now ns query limit include_quarantined t))
        × (length
              (found_rows (memory_search ranking engine now ns query limit include_quarantined t))
            ≤ limit)
        × IsScored ranking engine
            (found_rows (memory_search ranking engine now ns query limit include_quarantined t))
            (legs
              (engine.embed_query query)
              limit
              (candidates ranking engine now ns include_quarantined t))
        × All
            (IsGuarded ranking engine
              (top_score ranking engine
                (found_rows (memory_search ranking engine now ns query limit include_quarantined t))
                (legs
                  (engine.embed_query query)
                  limit
                  (candidates ranking engine now ns include_quarantined t)))
              (legs
                (engine.embed_query query)
                limit
                (candidates ranking engine now ns include_quarantined t)))
            (memory_search ranking engine now ns query limit include_quarantined t)
  unfolding memory_search
  memory_search-IsFound now ns query limit iq t index ordered =
      let rows = candidates ranking engine now ns iq t in
      let v = engine.embed_query query in
      let scored = legs v limit rows in
      let e = search_with-guarded v query limit rows in
      let f = guarded-rows ranking engine (searched v query limit rows) scored in
      rw (e, f)
        (
          searched-All (IsFound now ns iq t) v query limit rows index
              (candidates-IsFound now ns iq t),
          searched-NoKeyTwice v query limit rows (candidates-IsSorted now ns iq t),
          length-searched-le v query limit rows,
          search-IsScored ranking engine (searched v query limit rows) scored ordered,
          guard_search_rows-judged ranking engine (searched v query limit rows) scored,
        )
