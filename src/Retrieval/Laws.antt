-- ===== src/Retrieval/Laws.antt =====
-- How the guard divides the candidates.
use mcp_assist_memory.Prelude.{
  Bool, true, false, not, Option, none, some, List, [], ◌∷◌, ◌++◌, ◌&&◌, ◌≡◌, refl, sym, ap, ◌∙◌,
  Bool-cases, map, keep, keep-yes, keep-no, inl, inr,
}
use mathlib.Core.List.{append-nil, append_assoc}
use mcp_assist_memory.Retrieval.Top.{IsOrdered, IsTop, top_of-IsTop}
use mcp_assist_memory.Retrieval.{
  Reason, is_admitted, below_floor, below_alpha, keyword_only, Scores, Guard, RetrievalVerdict,
  GuardOutcome, judge, judge_all, top_of, append, place, apply_guard,
}

module _ (scores : Scores) where
  -- `alpha` of the top score, and zero where nothing is scored
  abbrev pub threshold : Guard scores → Option scores.Score → scores.Score
  threshold g none = scores.zero_score
  threshold g (some top) = scores.times g.alpha top

  -- A candidate without a cosine passes, and one with a cosine that is below neither bound.
  abbrev pub passes : Guard scores → Option scores.Score → Option scores.Score → Bool
  passes g top none = true
  passes g top (some s) = not (scores.lt s g.absolute_floor) && not (scores.lt s (threshold g top))

  -- the reason that a verdict has to give
  abbrev pub HasReason : Guard scores → Option scores.Score → Option scores.Score → Reason → Type 0
  HasReason g top none keyword_only = Unit
  HasReason g top (some s) below_floor = scores.lt s g.absolute_floor ≡ true
  HasReason g top (some s) below_alpha =
      (scores.lt s g.absolute_floor ≡ false) × (scores.lt s (threshold g top) ≡ true)
  HasReason g top (some s) is_admitted =
      (scores.lt s g.absolute_floor ≡ false) × (scores.lt s (threshold g top) ≡ false)
  HasReason g top _ _ = ⊥

  abbrev pub IsExplained :
      Guard scores → Option scores.Score → Option scores.Score → RetrievalVerdict scores → Type 0
  IsExplained g top c v =
      (v.admitted ≡ passes g top c)
      × (v.cosine ≡ c)
      × (v.top_score ≡ top)
      × HasReason g top c v.reason

  judge-IsExplained :
      (g : Guard scores) (top c : Option scores.Score) → IsExplained g top c (judge scores g top c)
  unfolding judge
  judge-IsExplained g top none = (refl, refl, refl, tt)
  judge-IsExplained g none (some s) = elim (Bool-cases (scores.lt s g.absolute_floor)) [
    | inl e ↦ rw e (refl, refl, refl, e)
    | inr e ↦ elim (Bool-cases (scores.lt s scores.zero_score)) [
      | inl f ↦ rw (e, f) (refl, refl, refl, (e, f))
      | inr f ↦ rw (e, f) (refl, refl, refl, (e, f))
    ]
  ]
  judge-IsExplained g (some top) (some s) = elim (Bool-cases (scores.lt s g.absolute_floor)) [
    | inl e ↦ rw e (refl, refl, refl, e)
    | inr e ↦ elim (Bool-cases (scores.lt s (scores.times g.alpha top))) [
      | inl f ↦ rw (e, f) (refl, refl, refl, (e, f))
      | inr f ↦ rw (e, f) (refl, refl, refl, (e, f))
    ]
  ]

module _ (scores : Scores) {A : Type 0} where
  abbrev pub with_verdict :
      Guard scores → Option scores.Score → A × Option scores.Score → A × RetrievalVerdict scores
  with_verdict g top x = (x.0, judge scores g top x.1)

  -- The outcome is the candidates, in their order and as often as they stand there: those that pass
  -- are the admitted, the others the rejected, each with a verdict that says so and gives the reason;
  -- the top score is the largest cosine.
  pub record IsJudged (g : Guard scores) (top : Option scores.Score)
      (cs : List (A × Option scores.Score)) (out : GuardOutcome scores A) : Type 0 where
    pub admitted : out.admitted ≡ map (with_verdict g top) (keep (λ x. passes scores g top x.1) cs)
    pub rejected :
        out.rejected ≡ map (with_verdict g top) (keep (λ x. not (passes scores g top x.1)) cs)
    pub largest : IsTop scores top cs
    pub explained : (c : Option scores.Score) → IsExplained scores g top c (judge scores g top c)

  judge_all-admitted_eq :
      (g : Guard scores) (top : Option scores.Score) (cs : List (A × Option scores.Score))
      (out : GuardOutcome scores A)
      → (judge_all scores g top cs out).admitted
        ≡ out.admitted ++ map (with_verdict g top) (keep (λ x. passes scores g top x.1) cs)
  unfolding judge_all keep
  judge_all-admitted_eq g top [] out = sym (append-nil out.admitted)
  judge_all-admitted_eq g top ((a, c) ∷ cs) out =
      let v = judge scores g top c in
      let e = (judge-IsExplained scores g top c).0 in
      elim (Bool-cases (passes scores g top c)) [
        | inl p ↦
            let f : append scores a v out ≡ place scores true (a, v) out =
              ap (λ b. place scores b (a, v) out) (e ∙ p) in
            judge_all-admitted_eq g top cs (append scores a v out)
            ∙ ap
                (λ (o : GuardOutcome scores A).
                  o.admitted ++ map (with_verdict g top) (keep (λ x. passes scores g top x.1) cs))
                f
            ∙ append_assoc out.admitted ((a, v) ∷ []) _
            ∙ ap (λ l. out.admitted ++ map (with_verdict g top) l)
                (sym (keep-yes (λ x. passes scores g top x.1) (a, c) cs p))
        | inr p ↦
            let f : append scores a v out ≡ place scores false (a, v) out =
              ap (λ b. place scores b (a, v) out) (e ∙ p) in
            judge_all-admitted_eq g top cs (append scores a v out)
            ∙ ap
                (λ (o : GuardOutcome scores A).
                  o.admitted ++ map (with_verdict g top) (keep (λ x. passes scores g top x.1) cs))
                f
            ∙ ap (λ l. out.admitted ++ map (with_verdict g top) l)
                (sym (keep-no (λ x. passes scores g top x.1) (a, c) cs p))
      ]

  judge_all-rejected_eq :
      (g : Guard scores) (top : Option scores.Score) (cs : List (A × Option scores.Score))
      (out : GuardOutcome scores A)
      → (judge_all scores g top cs out).rejected
        ≡ out.rejected ++ map (with_verdict g top) (keep (λ x. not (passes scores g top x.1)) cs)
  unfolding judge_all keep
  judge_all-rejected_eq g top [] out = sym (append-nil out.rejected)
  judge_all-rejected_eq g top ((a, c) ∷ cs) out =
      let v = judge scores g top c in
      let e = (judge-IsExplained scores g top c).0 in
      elim (Bool-cases (passes scores g top c)) [
        | inr p ↦
            let f : append scores a v out ≡ place scores false (a, v) out =
              ap (λ b. place scores b (a, v) out) (e ∙ p) in
            judge_all-rejected_eq g top cs (append scores a v out)
            ∙ ap
                (λ (o : GuardOutcome scores A).
                  o.rejected
                  ++ map (with_verdict g top) (keep (λ x. not (passes scores g top x.1)) cs))
                f
            ∙ append_assoc out.rejected ((a, v) ∷ []) _
            ∙ ap (λ l. out.rejected ++ map (with_verdict g top) l)
                (sym (keep-yes (λ x. not (passes scores g top x.1)) (a, c) cs (ap not p)))
        | inl p ↦
            let f : append scores a v out ≡ place scores true (a, v) out =
              ap (λ b. place scores b (a, v) out) (e ∙ p) in
            judge_all-rejected_eq g top cs (append scores a v out)
            ∙ ap
                (λ (o : GuardOutcome scores A).
                  o.rejected
                  ++ map (with_verdict g top) (keep (λ x. not (passes scores g top x.1)) cs))
                f
            ∙ ap (λ l. out.rejected ++ map (with_verdict g top) l)
                (sym (keep-no (λ x. not (passes scores g top x.1)) (a, c) cs (ap not p)))
      ]

  -- Where `<` on the cosines is a strict weak order, the guard divides the candidates and loses none:
  -- the admitted are exactly those that pass the floor and the share of the largest cosine, or have no
  -- cosine, the rejected are exactly the others, both in the order of the candidates; and each verdict
  -- names its reason.
  pub apply_guard-IsJudged :
      (g : Guard scores) (cs : List (A × Option scores.Score))
      → IsOrdered scores
      → IsJudged g (top_of scores none cs) cs (apply_guard scores g cs)
  unfolding apply_guard
  apply_guard-IsJudged g cs ordered = record {
    largest = top_of-IsTop scores ordered cs;
    admitted = judge_all-admitted_eq g (top_of scores none cs) cs _;
    rejected = judge_all-rejected_eq g (top_of scores none cs) cs _;
    explained = judge-IsExplained scores g (top_of scores none cs);
  }
