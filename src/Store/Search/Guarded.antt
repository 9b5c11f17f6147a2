-- ===== src/Store/Search/Guarded.antt =====
-- `_guard_search_rows` of storage/postgres.py: the verdict that each row of a search carries.
use mcp_assist_memory.Prelude.{
  Text, true, Option, none, some, List, [], ◌∷◌, ◌++◌, text_eq, text_eq_iff, text_eq_refl, keep,
  map, is_some, All, In-All, All-map, All-append, In, In-append_left, In-append_right,
  if◌then◌else◌, ◌≡◌, Option-cases, refl, sym, subst, ap, ◌∙◌, Bool-cases, inl, inr,
}
use mcp_assist_memory.Retrieval.{RetrievalVerdict, judge, top_of, apply_guard}
use mcp_assist_memory.Retrieval.Top.{IsOrdered, IsTop, top_of-IsTop}
use mcp_assist_memory.Retrieval.Placed.{apply_guard-All, apply_guard-IsPlaced}
use mcp_assist_memory.Store.Rows.{Row}
use mcp_assist_memory.Store.Search.{
  Ranking, Engine, Result, verdict_of, cosine_of, guard_search_rows,
}

module _ (ranking : Ranking) (engine : Engine ranking) where
  open ranking use {Score}
  open engine use {guard}

  -- The rows of the guarded list are those that were guarded.
  pub guarded-rows :
      (entries : List Row) (scored : List (Row × Score))
      → map (λ (x : Result ranking engine). x.0) (guard_search_rows ranking engine entries scored)
        ≡ entries
  unfolding guard_search_rows
  guarded-rows entries scored = ids entries _
    where
      ids :
          (l : List Row) (f : Row → Option (RetrievalVerdict ranking.scores))
          → map
              (λ (x : Row × Option (RetrievalVerdict ranking.scores)). x.0)
              (map (λ r. (r, f r)) l)
            ≡ l
      ids [] f = refl
      ids (r ∷ l) f = ap (λ k. r ∷ k) (ids l f)

  abbrev cosines : Text → List (Row × Score) → List (Row × Option Score)
  cosines key scored =
      map (λ (x : Row × Score). (x.0, some (ranking.one_minus x.1)))
        (keep (λ x. text_eq x.0.key key) scored)

  -- the largest of the cosines of a key in the semantic legs
  abbrev pub best : List (Row × Score) → Text → Option Score
  best scored key = top_of ranking.scores none (cosines key scored)

  cosine_of-best :
      (key : Text) (scored : List (Row × Score)) (b : Option Score)
      → cosine_of ranking key scored b ≡ top_of ranking.scores b (cosines key scored)
  unfolding cosine_of top_of keep
  cosine_of-best key [] b = refl
  cosine_of-best key ((r, d) ∷ l) b = elim (Bool-cases (text_eq r.key key)) [
    | inl e ↦ rw e (cosine_of-best key l _)
    | inr e ↦ rw e (cosine_of-best key l b)
  ]

  module _ (top : Option Score) (scored : List (Row × Score)) where
    -- the verdict that the guard gives to a key by its best cosine
    abbrev pub verdict_at : Text → RetrievalVerdict ranking.scores
    verdict_at key = judge ranking.scores guard top (best scored key)

    abbrev IsAt : Row × RetrievalVerdict ranking.scores → Type 0
    IsAt (r, v) = v ≡ verdict_at r.key

    verdict_of-cons :
        (key : Text) (r : Row) (v : RetrievalVerdict ranking.scores)
        (l : List (Row × RetrievalVerdict ranking.scores))
        → verdict_of ranking engine key ((r, v) ∷ l) ≡ (
            if is_some (verdict_of ranking engine key l)
            then verdict_of ranking engine key l
            else if text_eq r.key key
            then some v
            else none)
    unfolding verdict_of
    verdict_of-cons key r v l = refl

    verdict_of_sound :
        (key : Text) (l : List (Row × RetrievalVerdict ranking.scores))
        (w : RetrievalVerdict ranking.scores)
        → All IsAt l
        → verdict_of ranking engine key l ≡ some w
        → w ≡ verdict_at key
    verdict_of_sound key [] w a h = absurd (unfold verdict_of in cc)
    verdict_of_sound key ((r, v) ∷ l) w (a, b) h =
        elim (Option-cases (verdict_of ranking engine key l)) [
          | inr (u, e) ↦
              let f : ◌≡◌ {A = Option (RetrievalVerdict ranking.scores)} (some u) (some w) =
                sym (verdict_of-cons key r v l ∙ (rw (e))) ∙ h in
              verdict_of_sound key l w b (e ∙ f)
          | inl e ↦ elim (Bool-cases (text_eq r.key key)) [
            | inl g ↦
                let f : ◌≡◌ {A = Option (RetrievalVerdict ranking.scores)} (some v) (some w) =
                  sym (verdict_of-cons key r v l ∙ (rw (e, g))) ∙ h in
                let q : v ≡ w = cc in sym q ∙ a ∙ ap verdict_at ((text_eq_iff r.key key).0 g)
            | inr g ↦
                let f : ◌≡◌ {A = Option (RetrievalVerdict ranking.scores)} none (some w) =
                  sym (verdict_of-cons key r v l ∙ (rw (e, g))) ∙ h in
                absurd (cc)
          ]
        ]

    verdict_of-some :
        (r : Row) (v : RetrievalVerdict ranking.scores)
        (l : List (Row × RetrievalVerdict ranking.scores))
        → In (r, v) l
        → (w : RetrievalVerdict ranking.scores) × (verdict_of ranking engine r.key l ≡ some w)
    verdict_of-some r v [] m = absurd m
    verdict_of-some r v ((s, u) ∷ l) m = elim (Option-cases (verdict_of ranking engine r.key l)) [
      | inr (w, e) ↦ (w, verdict_of-cons r.key s u l ∙ (rw (e)))
      | inl e ↦
          elim m
            as (λ k.
              (w : RetrievalVerdict ranking.scores) × (verdict_of ranking engine r.key ((s, u) ∷ l)
                ≡ some w)) [
                  | inl q ↦
                      let g : text_eq s.key r.key ≡ true =
                        subst
                          (λ (x : Row × RetrievalVerdict ranking.scores).
                            text_eq x.0.key r.key ≡ true)
                          q (text_eq_refl r.key) in
                      (u, verdict_of-cons r.key s u l ∙ (rw (e, g)))
                  | inr k ↦ absurd (missing (verdict_of-some r v l k) e)
                ]
    ]
      where
        missing :
            {o : Option (RetrievalVerdict ranking.scores)}
            → (w : RetrievalVerdict ranking.scores) × (o ≡ some w)
            → o ≡ none
            → ⊥
        missing (w, f) e = cc

  -- the guard's verdict on a result, by the top score and the cosines of the search
  abbrev pub IsGuarded : Option Score → List (Row × Score) → Result ranking engine → Type 0
  IsGuarded top scored (r, v) = v ≡ some (verdict_at top scored r.key)

  judged :
      (cs : List (Row × Option Score)) (r : Row) (c : Option Score)
      → In (r, c) cs
      → (v : RetrievalVerdict ranking.scores) × In
          (r, v)
          ((apply_guard ranking.scores guard cs).admitted
            ++ (apply_guard ranking.scores guard cs).rejected)
  judged cs r c m =
      let out = apply_guard ranking.scores guard cs in
      let all = apply_guard-IsPlaced ranking.scores guard cs in
      let v = judge ranking.scores guard (top_of ranking.scores none cs) c in
      elim (Bool-cases v.admitted) [
        | inl e ↦ (v, In-append_left (r, v) out.admitted out.rejected (all.admitted r c m e))
        | inr e ↦ (v, In-append_right (r, v) out.admitted out.rejected (all.rejected r c m e))
      ]

  -- the top score of the rows of a search
  abbrev pub top_score : List Row → List (Row × Score) → Option Score
  top_score rows scored =
      top_of ranking.scores none (map (λ (r : Row). (r, best scored r.key)) rows)

  -- The top score is the largest of the rows' cosines, and the cosine of a key the largest that the
  -- semantic legs give for it.
  abbrev pub IsScored : List Row → List (Row × Score) → Type 0
  IsScored rows scored =
      IsTop ranking.scores (top_score rows scored) (map (λ (r : Row). (r, best scored r.key)) rows)
      × ((key : Text) → IsTop ranking.scores (best scored key) (cosines key scored))

  pub search-IsScored :
      (rows : List Row) (scored : List (Row × Score))
      → IsOrdered ranking.scores
      → IsScored rows scored
  search-IsScored rows scored ordered = (
    top_of-IsTop ranking.scores ordered (map (λ (r : Row). (r, best scored r.key)) rows),
    λ key. top_of-IsTop ranking.scores ordered (cosines key scored),
  )

  pub guard_search_rows-judged :
      (entries : List Row) (scored : List (Row × Score))
      → All
          (IsGuarded (top_score entries scored) scored)
          (guard_search_rows ranking engine entries scored)
  unfolding guard_search_rows
  guard_search_rows-judged entries scored =
      let same : ◌≡◌ {A = Row → Row × Option Score} (λ r. (r, cosine_of ranking r.key scored none))
          (λ r. (r, best scored r.key)) =
        λ i r. (r, cosine_of-best r.key scored none i) in
      let cs = map (λ (r : Row). (r, best scored r.key)) entries in
      let top = top_score entries scored in
      let out = apply_guard ranking.scores guard cs in
      let (a, b) = apply_guard-All ranking.scores (IsAt top scored) guard cs (given entries top) in
      let all = All-append (IsAt top scored) out.admitted out.rejected a b in
      rw same (
        All-map (IsGuarded top scored)
          (λ r. (r, verdict_of ranking engine r.key (out.admitted ++ out.rejected))) entries
          (In-All
            (λ r.
              verdict_of ranking engine r.key (out.admitted ++ out.rejected)
              ≡ some (verdict_at top scored r.key))
            entries
            (λ r m.
              found top out.admitted out.rejected r all
                (judged cs r (best scored r.key) (candidate entries r m)))))
    where
      given :
          (l : List Row) (top : Option Score)
          → All
              (λ (c : Row × Option Score).
                IsAt top scored (c.0, judge ranking.scores guard top c.1))
              (map (λ (r : Row). (r, best scored r.key)) l)
      given [] top = tt
      given (r ∷ l) top = (refl, given l top)

      candidate :
          (l : List Row) (r : Row)
          → In r l
          → In {A = Row × Option Score}
              (r, best scored r.key)
              (map (λ (x : Row). (x, best scored x.key)) l)
      candidate [] r m = absurd m
      candidate (s ∷ l) r (inl e) = inl (ap (λ (x : Row). (x, best scored x.key)) e)
      candidate (s ∷ l) r (inr m) = inr (candidate l r m)

      found :
          (top : Option Score) (xs ys : List (Row × RetrievalVerdict ranking.scores)) (r : Row)
          → All (IsAt top scored) (xs ++ ys)
          → (v : RetrievalVerdict ranking.scores) × In (r, v) (xs ++ ys)
          → verdict_of ranking engine r.key (xs ++ ys) ≡ some (verdict_at top scored r.key)
      found top xs ys r all (v, m) =
          let (w, e) = verdict_of-some top scored r v (xs ++ ys) m in
          e ∙ ap some (verdict_of_sound top scored r.key (xs ++ ys) w all e)
