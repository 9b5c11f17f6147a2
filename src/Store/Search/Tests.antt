-- ===== src/Store/Search/Tests.antt =====
-- Searches of a small table.
use mcp_assist_memory.Prelude.{
  arith, ℕ, ◌+◌, ◌-◌, ◌*◌, ◌/◌, ◌≤◌, Text, codes, text_eq, true, false, Option, some, List, [], ◌∷◌,
  ◌≡◌, refl, All, In, In-All, All-take, All-map, map, take, length, keep, ltb, ◌+◌,
}
use mcp_assist_memory.Json.{text_lt}
use mcp_assist_memory.Store.Rows.{Row, is_live}
use mcp_assist_memory.Store.Listing.{distinct_on_key, insert_key, like_from}
use mcp_assist_memory.Store.Listing.Tests.{by_code, table}
use mcp_assist_memory.Store.Search.{
  Ranking, Engine, Result, memory_search, search_with, candidates, in_house, rrf_fuse,
  guard_search_rows, ahead, place_ranked,
}
use mcp_assist_memory.Store.Search.Fuse.{NoKeyTwice}
use mcp_assist_memory.Store.Search.Found.{IsFound, IsIndex, legs, found_rows, memory_search-IsFound}
use mcp_assist_memory.Store.Search.Guarded.{IsGuarded, IsScored, top_score}
use mcp_assist_memory.Retrieval.Top.{IsOrdered}

-- scores in thousandths
abbrev pub thousandths : Ranking
thousandths = record {
  scores = record { Score = ℕ; lt = ltb; times = λ a b. a * b / 1000; zero_score = 0 };
  add = λ a b. a + b;
  share = λ n. 1000 / n;
  one_minus = λ d. 1000 - d;
}

-- an index that ranks the rows in the order in which they come, all at one distance
abbrev ranked : Text → (Row → Option Text) → ℕ → List Row → List (Row × ℕ)
ranked vector column limit rows = take limit (map (λ r. (r, 200)) rows)

abbrev pub engine : Engine thousandths
engine = record {
  order = by_code;
  embed_query = λ query. some query;
  nearest = ranked;
  value_has = λ query value. true;
  guard = record { absolute_floor = 450; alpha = 850 };
}

found_ids :
    map
      (λ (r : Row). r.id)
      (found_rows thousandths engine
        (memory_search thousandths engine 200 (codes "n") (codes "v") 2 false table))
    ≡ 2 ∷ 4 ∷ []
unfolding memory_search search_with candidates in_house like_from distinct_on_key insert_key keep
    is_live text_eq text_lt ahead place_ranked rrf_fuse guard_search_rows
found_ids = refl

pub engine-IsIndex : IsIndex thousandths engine
engine-IsIndex vector column limit rows =
    All-take (λ (x : Row × ℕ). In x.0 rows) limit (map (λ (r : Row). (r, 200)) rows)
      (All-map (λ (x : Row × ℕ). In x.0 rows) (λ (r : Row). (r, 200)) rows
        (In-All (λ (r : Row). In r rows) rows (λ r m. m)))

abbrev results : List (Result thousandths engine)
results = memory_search thousandths engine 200 (codes "n") (codes "v") 2 false table

thousandths-IsOrdered : IsOrdered thousandths.scores
thousandths-IsOrdered = record {
  irreflexive = λ a. ground arith;
  asymmetric = λ a b h. ground arith;
  negatively_transitive = λ a b c h k. ground arith;
}

memory_search-IsFound_example :
    All
      (IsFound thousandths engine 200 (codes "n") false table)
      (found_rows thousandths engine results)
    × NoKeyTwice (found_rows thousandths engine results)
    × (length (found_rows thousandths engine results) ≤ 2)
    × IsScored thousandths engine (found_rows thousandths engine results) (
        legs thousandths engine
          (some (codes "v"))
          2
          (candidates thousandths engine 200 (codes "n") false table))
    × All
        (IsGuarded thousandths engine
          (top_score thousandths engine (found_rows thousandths engine results) (
            legs thousandths engine
              (some (codes "v"))
              2
              (candidates thousandths engine 200 (codes "n") false table)))
          (legs thousandths engine
            (some (codes "v"))
            2
            (candidates thousandths engine 200 (codes "n") false table)))
        results
memory_search-IsFound_example =
    memory_search-IsFound thousandths engine 200 (codes "n") (codes "v") 2 false table
      engine-IsIndex thousandths-IsOrdered
