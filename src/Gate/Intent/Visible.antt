-- ===== src/Gate/Intent/Visible.antt =====
-- The matches of an intent are with rows that a read shows.
use mcp_assist_memory.Prelude.{
  ℕ, Text, Bool, true, false, not, Option, none, some, List, [], ◌∷◌, ◌++◌, ◌&&◌, ◌||◌, text_eq,
  keep, map, any, is_some, starts_with, or_else, All, All-In, In-All, All-take, All-keep, All-map,
  All-append, In, In-keep_cases, if◌then◌else◌, ◌≡◌, sym, ap, ◌∙◌, arith, Bool-cases, inl, inr,
  keep-keep,
}
use mcp_assist_memory.Retrieval.{RetrievalVerdict}
use mcp_assist_memory.Retrieval.Placed.{apply_guard-All}
use mcp_assist_memory.Store.Rows.{Row, Table}
use mcp_assist_memory.Store.Reads.{memory_get}
use mcp_assist_memory.Store.Listing.{distinct_on_key, shown, like}
use mcp_assist_memory.Store.Listing.Sorted.{distinct_on_key-keep}
use mcp_assist_memory.Store.Listing.Latest.{In-distinct_on_key, memory_get-latest}
use mcp_assist_memory.Store.Search.{Ranking, in_house}
use mcp_assist_memory.Store.Search.Found.{IsIndex}
use mcp_assist_memory.Gate.Skills.{skill_prefix}
use mcp_assist_memory.Gate.Intent.Candidates.{
  Retriever, Match, match_entry, gate_pattern, semantic_rows, above_floor, semantic_candidates,
  overlaps, skill_rows, trigger_candidates, candidates_for, overlapping, guarded_candidates,
  add_unseen, matched_with,
}

module _ (ranking : Ranking) (retriever : Retriever ranking) where
  open ranking use {Score}
  open retriever use {engine}

  -- the rows that `memory_get` returns
  abbrev pub IsVisible : ℕ → Text → Bool → Table → Row → Type 0
  IsVisible now ns iq t r = memory_get now ns r.key iq t ≡ some r

  module _ (now : ℕ) (ns : Text) (iq : Bool) (t : Table) where
    IsVisible-latest :
        (r : Row)
        → In r (distinct_on_key engine.order (keep (λ x. text_eq ns x.namespace) t))
        → shown engine.order now iq r ≡ true
        → IsVisible now ns iq t r
    IsVisible-latest r m h =
        (memory_get-latest engine.order now ns iq r t).1
          ((In-distinct_on_key engine.order ns r t).0 m, h)

    semantic_rows-All : All (IsVisible now ns iq t) (semantic_rows ranking retriever now ns iq t)
    unfolding semantic_rows
    semantic_rows-All =
        let rows = distinct_on_key engine.order (keep (λ r. text_eq ns r.namespace) t) in
        In-All (IsVisible now ns iq t)
          (keep
            (λ r.
              shown engine.order now iq r
              && (not (in_house r.key || like gate_pattern r.key) && is_some r.embedding))
            rows)
          (λ r m.
            let (a, b) =
              In-keep_cases
                (λ x.
                  shown engine.order now iq x
                  && (not (in_house x.key || like gate_pattern x.key) && is_some x.embedding))
                r rows m in
            IsVisible-latest r a (first (shown engine.order now iq r) _ b))
      where
        first : (a b : Bool) → (a && b) ≡ true → a ≡ true
        first a b h = ground arith

    skill_rows-All : All (IsVisible now ns iq t) (skill_rows ranking retriever now ns iq t)
    unfolding skill_rows
    skill_rows-All =
        let keys = λ (r : Row). starts_with r.key skill_prefix in
        let in_ns = λ (r : Row). text_eq ns r.namespace in
        let rows = distinct_on_key engine.order (keep in_ns t) in
        let e : distinct_on_key engine.order (keep (λ r. in_ns r && keys r) t) ≡ keep keys rows =
          ap (distinct_on_key engine.order) (sym (keep-keep keys in_ns t))
          ∙ distinct_on_key-keep engine.order (λ k. starts_with k skill_prefix) (keep in_ns t) in
        All-take (IsVisible now ns iq t) 200
          (keep (shown engine.order now iq)
            (distinct_on_key engine.order (keep (λ r. in_ns r && keys r) t)))
          (rw e (
            In-All (IsVisible now ns iq t) (keep (shown engine.order now iq) (keep keys rows))
              (λ r m.
                let (a, b) = In-keep_cases (shown engine.order now iq) r (keep keys rows) m in
                IsVisible-latest r (In-keep_cases keys r rows a).0 b)))

  module _ (P : Row → Type 0) where
    above_floor-All :
        (l : List (Row × Score))
        → All (λ x. P x.0) l
        → All (λ m. P m.row) (above_floor ranking retriever l)
    unfolding above_floor
    above_floor-All [] a = tt
    above_floor-All ((r, d) ∷ l) (p, a) =
        elim (Bool-cases (ranking.lt (ranking.one_minus d) retriever.hard_floor)) [
          | inl e ↦ rw e (above_floor-All l a)
          | inr e ↦ rw e (p, above_floor-All l a)
        ]

    indexed :
        (l : List (Row × Score)) (rows : List Row)
        → All (λ x. In x.0 rows) l
        → All P rows
        → All (λ x. P x.0) l
    indexed [] rows h a = tt
    indexed (x ∷ l) rows (m, h) a = (All-In P x.0 rows a m, indexed l rows h a)

    candidates_for-All :
        (v : Option Text) (rows : List Row)
        → IsIndex ranking engine
        → All P rows
        → All (λ m. P m.row) (candidates_for ranking retriever v rows)
    candidates_for-All none rows index a = tt
    candidates_for-All (some v) rows index a =
        above_floor-All (engine.nearest v (λ r. r.embedding) 8 rows)
          (indexed _ rows (index v (λ r. r.embedding) 8 rows) a)

    overlapping-All :
        (tokens : List Text) (rows : List Row)
        → All P rows
        → All (λ m. P m.row) (overlapping ranking retriever tokens rows)
    overlapping-All [] rows a = tt
    overlapping-All (k ∷ ks) rows a =
        All-map (λ (m : Match Score). P m.row) (λ r. match_entry ranking retriever r none) _
          (All-keep P (overlaps ranking retriever (k ∷ ks)) rows a)

    guarded_candidates-All :
        (cs : List (Match Score))
        → All (λ m. P m.row) cs
        → All (λ m. P m.row) (guarded_candidates ranking retriever cs)
    unfolding guarded_candidates
    guarded_candidates-All cs a =
        let pairs =
          map (λ (m : Match Score). (m, some (or_else m.similarity ranking.zero_score))) cs in
        All-map (λ (m : Match Score). P m.row)
          (λ (x : Match Score × RetrievalVerdict ranking.scores). x.0) _
          (apply_guard-All ranking.scores
            (λ (x : Match Score × RetrievalVerdict ranking.scores). P x.0.row) engine.guard pairs
            (All-map (λ (c : Match Score × Option Score). P c.0.row) _ cs a)).0

    add_unseen-All :
        (ms cs : List (Match Score))
        → All (λ m. P m.row) ms
        → All (λ m. P m.row) cs
        → All (λ m. P m.row) (add_unseen ranking retriever ms cs)
    unfolding add_unseen
    add_unseen-All ms [] a b = a
    add_unseen-All ms (c ∷ cs) a (p, b) =
        elim (Bool-cases (any (λ (m : Match Score). text_eq m.row.key c.row.key) ms)) [
          | inl e ↦ rw e (add_unseen-All ms cs a b)
          | inr e ↦ rw e (
              add_unseen-All (ms ++ c ∷ []) cs
                (All-append (λ (m : Match Score). P m.row) ms (c ∷ []) a (p, tt)) b)
        ]

  -- Every match is with a row that `memory_get` returns.
  pub matched_with-All :
      (now : ℕ) (ns goal : Text) (clinical iq : Bool) (t : Table)
      → IsIndex ranking engine
      → All
          (λ m. IsVisible now ns iq t m.row)
          (matched_with ranking retriever now ns goal clinical iq t)
  unfolding matched_with
  matched_with-All now ns goal clinical iq t index =
      let P = IsVisible now ns iq t in
      add_unseen-All P _ _
        (add_unseen-All P [] _ tt (guarded_candidates-All P _ (semantic clinical)))
        (unfold trigger_candidates in
          overlapping-All P (retriever.tokens_in goal) _ (skill_rows-All now ns iq t))
    where
      semantic :
          (b : Bool)
          → All
              (λ m. IsVisible now ns iq t m.row)
              (if b then [] else semantic_candidates ranking retriever now ns goal iq t)
      semantic true = tt
      semantic false =
          unfold semantic_candidates in
          candidates_for-All (IsVisible now ns iq t) (engine.embed_query goal) _ index
            (semantic_rows-All now ns iq t)
