-- ===== src/Gate/Awaken.antt =====
-- storage/awaken.py: the lookup of fresh context for a stale target. What the resolver answers within
-- the budget is a parameter; the telemetry row is noted by its error code, and a failure to write it
-- is left out.
use mcp_assist_memory.Prelude.{
  ℕ, suc, Text, codes, Bool, false, Option, none, some, List, [], ◌∷◌, ◌≡◌, refl, if◌then◌else◌,
}
use mcp_assist_memory.Json.{Json, Fields}

-- what one call of the resolver comes to
pub data Reply (A : Type 0) : Type 0 where
  answers : Option A → Reply A
  out_of_time : Reply A
  fails : Reply A

pub record Context : Type 0 where
  pub enabled : Bool
  pub branch_head : Text → Text → Reply Text
  pub merged_state : Text → Json → Reply Fields

pub record Target : Type 0 where
  pub repo : Option Text
  pub branch : Option Text
  pub pr : Option Json

pub data Awakened : Type 0 where
  head_of : Text → Text → Text → Awakened
  state_of : Text → Json → Fields → Awakened
  timeout : Awakened
  unresolved : Awakened

abbrev after_head : Text → Text → Reply Text → Awakened → Awakened
after_head repo branch (answers none) next = next
after_head repo branch (answers (some [])) next = next
after_head repo branch (answers (some (c ∷ s))) next = head_of repo branch (c ∷ s)
after_head repo branch out_of_time next = timeout
after_head repo branch fails next = unresolved

abbrev after_state : Text → Json → Reply Fields → Awakened → Awakened
after_state repo pr (answers none) next = next
after_state repo pr (answers (some st)) next = state_of repo pr st
after_state repo pr out_of_time next = timeout
after_state repo pr fails next = unresolved

abbrev try_pr : Context → Text → Option Json → Awakened → Awakened
try_pr x repo none next = next
try_pr x repo (some pr) next = after_state repo pr (x.merged_state repo pr) next

abbrev try_branch : Context → Text → Target → Option Text → Awakened → Awakened
try_branch x repo t (some (c ∷ s)) next = after_head repo (c ∷ s) (x.branch_head repo (c ∷ s)) next
try_branch x repo t _ next = try_pr x repo t.pr next

abbrev try_repo : Context → Target → Option Text → Awakened → Awakened
try_repo x t (some (c ∷ s)) next = try_branch x (c ∷ s) t t.branch next
try_repo x t _ next = next

-- the loop over the targets: the first that resolves, or the first that breaks off
unfoldable pub first_resolved : Context → List Target → Awakened
first_resolved x [] = unresolved
first_resolved x (t ∷ ts) = let next = first_resolved x ts in try_repo x t t.repo next

abbrev pub error_code : Awakened → Option Text
error_code timeout = some (codes "awaken_timeout")
error_code unresolved = some (codes "awaken_unresolved")
error_code _ = none

-- `gate_awaken_count` and the telemetry rows, the newest first
pub record Counted : Type 0 where
  pub count : ℕ
  pub rows : List (Option Text)

abbrev looked_up : Option Context → List Target → Awakened
looked_up none ts = unresolved
looked_up (some x) ts = if x.enabled then first_resolved x ts else unresolved

unfoldable pub awaken : Option Context → List Target → Counted → Awakened × Counted
unfolding first_resolved
awaken resolver ts st =
    let out = looked_up resolver ts in
    (out, record { count = suc st.count; rows = error_code out ∷ st.rows })

-- Every awakening is counted once, with one telemetry row that has its error code.
awaken-counted :
    (resolver : Option Context) (ts : List Target) (st : Counted)
    → ((awaken resolver ts st).1.count ≡ suc st.count)
      × ((awaken resolver ts st).1.rows ≡ error_code (awaken resolver ts st).0 ∷ st.rows)
unfolding awaken
awaken-counted resolver ts st = (refl, refl)

-- Without an enabled resolver no target is looked up.
awaken_disabled :
    (x : Context) (ts : List Target) (st : Counted)
    → x.enabled ≡ false
    → (awaken (some x) ts st).0 ≡ unresolved
unfolding awaken
awaken_disabled x ts st e = rw e refl
