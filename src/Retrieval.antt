-- ===== src/Retrieval.antt =====
-- storage/retrieval.py: the guard that every semantic read passes. Scores are floats, taken as a type
-- with the operations that the guard uses.
pub mod Top
pub mod Placed
pub mod Laws
pub mod Tests
use mcp_assist_memory.Prelude.{
  ℕ, Bool, true, false, Option, none, some, List, [], ◌∷◌, ◌++◌, if◌then◌else◌,
}

pub record Scores : Type 1 where
  pub Score : Type 0
  pub lt : Score → Score → Bool
  pub times : Score → Score → Score
  pub zero_score : Score

pub data Reason : Type 0 where
  is_admitted below_floor below_alpha keyword_only : Reason

module _ (scores : Scores) where
  pub record Guard : Type 0 where
    pub absolute_floor : scores.Score
    pub alpha : scores.Score

  pub record RetrievalVerdict : Type 0 where
    pub admitted : Bool
    pub reason : Reason
    pub cosine : Option scores.Score
    pub top_score : Option scores.Score

  abbrev pub larger : Option scores.Score → scores.Score → Option scores.Score
  larger none s = some s
  larger (some m) s = some (if scores.lt m s then s else m)

  abbrev pub scored : Option scores.Score → Option scores.Score → Option scores.Score
  scored top none = top
  scored top (some s) = larger top s

  -- `alpha * top`, or 0.0 where nothing was scored
  abbrev pub relative : Guard → Option scores.Score → scores.Score
  relative g none = scores.zero_score
  relative g (some top) = scores.times g.alpha top

  abbrev verdict : Option scores.Score → Option scores.Score → Bool → Reason → RetrievalVerdict
  verdict top cosine admitted reason = record {
    admitted = admitted;
    reason = reason;
    cosine = cosine;
    top_score = top;
  }

  -- the verdict on one candidate
  unfoldable pub judge : Guard → Option scores.Score → Option scores.Score → RetrievalVerdict
  judge g top none = verdict top none true keyword_only
  judge g top (some cosine) =
      if scores.lt cosine g.absolute_floor
      then verdict top (some cosine) false below_floor
      else if scores.lt cosine (relative g top)
      then verdict top (some cosine) false below_alpha
      else verdict top (some cosine) true is_admitted

  pub record GuardOutcome (A : Type 0) : Type 0 where
    pub admitted : List (A × RetrievalVerdict)
    pub rejected : List (A × RetrievalVerdict)

  module _ {A : Type 0} where
    -- `max((c[1] for c in scored), default=None)`
    unfoldable pub top_of :
        Option scores.Score → List (A × Option scores.Score) → Option scores.Score
    top_of top [] = top
    top_of top ((a, c) ∷ cs) = top_of (scored top c) cs

    abbrev pub place : Bool → A × RetrievalVerdict → GuardOutcome A → GuardOutcome A
    place true x out = record { admitted = out.admitted ++ (x ∷ []); rejected = out.rejected }
    place false x out = record { admitted = out.admitted; rejected = out.rejected ++ (x ∷ []) }

    -- `(out.admitted if admitted else out.rejected).append((row, verdict))`
    abbrev pub append : A → RetrievalVerdict → GuardOutcome A → GuardOutcome A
    append a v out = place v.admitted (a, v) out

    unfoldable pub judge_all :
        Guard
        → Option scores.Score
        → List (A × Option scores.Score)
        → GuardOutcome A
        → GuardOutcome A
    judge_all g top [] out = out
    judge_all g top ((a, c) ∷ cs) out = judge_all g top cs (append a (judge g top c) out)

    unfoldable pub apply_guard : Guard → List (A × Option scores.Score) → GuardOutcome A
    unfolding judge_all top_of
    apply_guard g cs = judge_all g (top_of none cs) cs (record { admitted = []; rejected = [] })
