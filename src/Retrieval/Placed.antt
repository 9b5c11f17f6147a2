-- ===== src/Retrieval/Placed.antt =====
-- Where the guard puts the verdicts on candidates.
use mcp_assist_memory.Prelude.{
  Bool, true, false, Option, none, List, [], ◌∷◌, ◌≡◌, refl, In, In-append_left, In-append_right,
  inl, inr, subst, All, All-append,
}
use mcp_assist_memory.Retrieval.{
  Scores, Guard, RetrievalVerdict, GuardOutcome, judge, judge_all, top_of, append, place,
  apply_guard,
}

module _ (scores : Scores) {A : Type 0} where
  -- The verdict of each candidate stands in one of the lists.
  pub record IsPlaced (g : Guard scores) (top : Option scores.Score)
      (cs : List (A × Option scores.Score)) (out : GuardOutcome scores A) : Type 0 where
    pub admitted :
        (a : A) (c : Option scores.Score)
        → In (a, c) cs
        → (judge scores g top c).admitted ≡ true
        → In (a, judge scores g top c) out.admitted
    pub rejected :
        (a : A) (c : Option scores.Score)
        → In (a, c) cs
        → (judge scores g top c).admitted ≡ false
        → In (a, judge scores g top c) out.rejected

  place-admitted :
      (b : Bool) (x : A × RetrievalVerdict scores) (out : GuardOutcome scores A)
      → b ≡ true
      → In x ((place scores b x out).admitted)
  place-admitted true x out e = In-append_right x out.admitted (x ∷ []) (inl refl)
  place-admitted false x out e = cc

  place-rejected :
      (b : Bool) (x : A × RetrievalVerdict scores) (out : GuardOutcome scores A)
      → b ≡ false
      → In x ((place scores b x out).rejected)
  place-rejected true x out e = cc
  place-rejected false x out e = In-append_right x out.rejected (x ∷ []) (inl refl)

  place-keeps_admitted :
      (b : Bool) (x y : A × RetrievalVerdict scores) (out : GuardOutcome scores A)
      → In x out.admitted
      → In x ((place scores b y out).admitted)
  place-keeps_admitted true x y out m = In-append_left x out.admitted (y ∷ []) m
  place-keeps_admitted false x y out m = m

  place-keeps_rejected :
      (b : Bool) (x y : A × RetrievalVerdict scores) (out : GuardOutcome scores A)
      → In x out.rejected
      → In x ((place scores b y out).rejected)
  place-keeps_rejected true x y out m = m
  place-keeps_rejected false x y out m = In-append_left x out.rejected (y ∷ []) m

  judge_all-keeps_admitted :
      (x : A × RetrievalVerdict scores) (g : Guard scores) (top : Option scores.Score)
      (cs : List (A × Option scores.Score)) (out : GuardOutcome scores A)
      → In x out.admitted
      → In x ((judge_all scores g top cs out).admitted)
  unfolding judge_all
  judge_all-keeps_admitted x g top [] out m = m
  judge_all-keeps_admitted x g top ((a, c) ∷ cs) out m =
      judge_all-keeps_admitted x g top cs _
        (place-keeps_admitted ((judge scores g top c).admitted) x (a, judge scores g top c) out m)

  judge_all-keeps_rejected :
      (x : A × RetrievalVerdict scores) (g : Guard scores) (top : Option scores.Score)
      (cs : List (A × Option scores.Score)) (out : GuardOutcome scores A)
      → In x out.rejected
      → In x ((judge_all scores g top cs out).rejected)
  unfolding judge_all
  judge_all-keeps_rejected x g top [] out m = m
  judge_all-keeps_rejected x g top ((a, c) ∷ cs) out m =
      judge_all-keeps_rejected x g top cs _
        (place-keeps_rejected ((judge scores g top c).admitted) x (a, judge scores g top c) out m)

  judge_all-admitted :
      (g : Guard scores) (top : Option scores.Score) (cs : List (A × Option scores.Score))
      (out : GuardOutcome scores A) (a : A) (c : Option scores.Score)
      → In (a, c) cs
      → (judge scores g top c).admitted ≡ true
      → In (a, judge scores g top c) ((judge_all scores g top cs out).admitted)
  unfolding judge_all
  judge_all-admitted g top [] out a c m e = absurd m
  judge_all-admitted g top ((b, d) ∷ cs) out a c (inl q) e =
      judge_all-keeps_admitted (a, judge scores g top c) g top cs _
        (subst
          (λ (x : A × Option scores.Score).
            In (a, judge scores g top c)
              ((append scores x.0 (judge scores g top x.1) out).admitted))
          q (place-admitted ((judge scores g top c).admitted) (a, judge scores g top c) out e))
  judge_all-admitted g top ((b, d) ∷ cs) out a c (inr m) e = judge_all-admitted g top cs _ a c m e

  judge_all-rejected :
      (g : Guard scores) (top : Option scores.Score) (cs : List (A × Option scores.Score))
      (out : GuardOutcome scores A) (a : A) (c : Option scores.Score)
      → In (a, c) cs
      → (judge scores g top c).admitted ≡ false
      → In (a, judge scores g top c) ((judge_all scores g top cs out).rejected)
  unfolding judge_all
  judge_all-rejected g top [] out a c m e = absurd m
  judge_all-rejected g top ((b, d) ∷ cs) out a c (inl q) e =
      judge_all-keeps_rejected (a, judge scores g top c) g top cs _
        (subst
          (λ (x : A × Option scores.Score).
            In (a, judge scores g top c)
              ((append scores x.0 (judge scores g top x.1) out).rejected))
          q (place-rejected ((judge scores g top c).admitted) (a, judge scores g top c) out e))
  judge_all-rejected g top ((b, d) ∷ cs) out a c (inr m) e = judge_all-rejected g top cs _ a c m e

  pub apply_guard-IsPlaced :
      (g : Guard scores) (cs : List (A × Option scores.Score))
      → IsPlaced g (top_of scores none cs) cs (apply_guard scores g cs)
  unfolding apply_guard
  apply_guard-IsPlaced g cs = record {
    admitted = λ a c m e. judge_all-admitted g (top_of scores none cs) cs _ a c m e;
    rejected = λ a c m e. judge_all-rejected g (top_of scores none cs) cs _ a c m e;
  }

  module _ (P : A × RetrievalVerdict scores → Type 0) where
    place-All :
        (b : Bool) (x : A × RetrievalVerdict scores) (out : GuardOutcome scores A)
        → P x
        → All P out.admitted × All P out.rejected
        → All P (place scores b x out).admitted × All P (place scores b x out).rejected
    place-All true x out p (a, r) = (All-append P out.admitted (x ∷ []) a (p, tt), r)
    place-All false x out p (a, r) = (a, All-append P out.rejected (x ∷ []) r (p, tt))

    judge_all-All :
        (g : Guard scores) (top : Option scores.Score) (cs : List (A × Option scores.Score))
        (out : GuardOutcome scores A)
        → All (λ c. P (c.0, judge scores g top c.1)) cs
        → All P out.admitted × All P out.rejected
        → All P (judge_all scores g top cs out).admitted
          × All P (judge_all scores g top cs out).rejected
    unfolding judge_all
    judge_all-All g top [] out h a = a
    judge_all-All g top ((c, s) ∷ cs) out (p, h) a =
        judge_all-All g top cs (append scores c (judge scores g top s) out) h
          (place-All ((judge scores g top s).admitted) (c, judge scores g top s) out p a)

    pub apply_guard-All :
        (g : Guard scores) (cs : List (A × Option scores.Score))
        → All (λ c. P (c.0, judge scores g (top_of scores none cs) c.1)) cs
        → All P (apply_guard scores g cs).admitted × All P (apply_guard scores g cs).rejected
    unfolding apply_guard
    apply_guard-All g cs h = judge_all-All g (top_of scores none cs) cs _ h (tt, tt)
