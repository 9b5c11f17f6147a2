-- ===== src/Reconcile.antt =====
-- storage/reconcile.py: the verdict on one claim. What GitHub answers is a parameter; that a call
-- fails is its `none`. A `none` of the reconciler itself is an exception that it raises. The prose of a
-- reason is not kept.
pub mod Convert
pub mod Laws
pub mod Tests
use mcp_assist_memory.Prelude.{
  ℕ, Text, codes, Bool, true, false, not, Option, none, some, List, [], ◌∷◌, ◌&&◌, text_eq,
  if◌then◌else◌,
}
use mcp_assist_memory.Json.{Json, str, int, obj, Fields, end, get, truthy, opt_truthy}
use mcp_assist_memory.ShaEquiv.{sha_match}
use mcp_assist_memory.Reconcile.Convert.{Number, int_of}

-- `{"merged": …, "merge_sha": …}`
pub record Merge : Type 0 where
  pub merged : Bool
  pub merge_sha : Option Text

-- A resolver; `commit_sha` gives `none` also where the reference is ambiguous.
pub record Resolver : Type 0 where
  pub enabled : Bool
  pub merged_state : Json → Number → Option Merge
  pub branch_head : Json → Json → Option Text
  pub commit_sha : Json → Json → Option Text

-- the fields of an entry that the reconciler reads
pub record Claim : Type 0 where
  pub meta : Option Fields
  pub branch : Option Json
  pub repo_sha : Option Json
  pub temporal_mode : Option Json

pub data State : Type 0 where
  current stale unverifiable : State

pub data Subject : Type 0 where
  no_subject : Subject
  commit pull_request branch_subject : Json → Subject

-- A verdict: its state, what it is about, whether it is terminal, and the commit that was observed
-- for the claim's evidence.
pub record Verdict : Type 0 where
  pub state : State
  pub subject : Subject
  pub terminal : Bool
  pub observed : Option Text

abbrev pub verdict : State → Subject → Bool → Verdict
verdict s j t = record { state = s; subject = j; terminal = t; observed = none }

abbrev pub fields_of : Option Fields → Fields
fields_of none = end
fields_of (some fs) = fs

abbrev truthy_or : Json → Option Json → Option Json
truthy_or v b = if truthy v then some v else b

-- `a or b`, for values that may be missing
unfoldable pub or_value : Option Json → Option Json → Option Json
unfolding truthy
or_value none b = b
or_value (some v) b = truthy_or v b

-- a text where `sha_match` sees one; any other value does not match
abbrev pub as_text : Option Json → Option Text
as_text (some (str s)) = some s
as_text _ = none

abbrev pub is_text : Text → Option Json → Bool
is_text t (some (str s)) = text_eq s t
is_text t _ = false

unfoldable pub repo_of : Claim → Option Json
repo_of c = get (codes "repo") (fields_of c.meta)

unfoldable pub branch_of : Claim → Option Json
branch_of c = or_value (get (codes "branch") (fields_of c.meta)) c.branch

unfoldable pub repo_sha_of : Claim → Option Json
repo_sha_of c = or_value c.repo_sha (get (codes "repo_sha") (fields_of c.meta))

unfoldable pub mode_of : Claim → Option Json
mode_of c = or_value c.temporal_mode (get (codes "temporal_mode") (fields_of c.meta))

-- `a and b` on optional values, both of them true
unfoldable pub both : Option Json → Option Json → Option (Json × Json)
unfolding truthy
both (some a) (some b) = if truthy a && truthy b then some (a, b) else none
both _ _ = none

-- what `commit_sha` answers for a repository and a reference, where both are there
abbrev pub look : Resolver → Option (Json × Json) → Option Text
look r none = none
look r (some (repo, ref)) = r.commit_sha repo ref

-- `full and sha_match(ref, full)`
abbrev pub confirms : Option Json → Option Text → Bool
confirms ref full = sha_match (as_text ref) full

abbrev json_or_null : Option Json → Json
json_or_null none = str []
json_or_null (some v) = v

abbrev pub snapshot_verdict : Resolver → Option Json → Option (Json × Json) → Verdict
snapshot_verdict r ref none = verdict unverifiable no_subject false
snapshot_verdict r ref (some (repo, sha)) =
    if confirms ref (r.commit_sha repo sha)
    then verdict current (commit sha) true
    else verdict unverifiable (commit sha) false

abbrev pub pr_verdict : Json → Option Json → Option Merge → Verdict
pr_verdict pr recorded none = verdict unverifiable (pull_request pr) false
pr_verdict pr recorded (some m) =
    if m.merged
    then verdict (if sha_match (as_text recorded) m.merge_sha then current else stale)
        (pull_request pr) false
    else verdict (if opt_truthy recorded then stale else current) (pull_request pr) false

abbrev pub branch_verdict : Json → Option Json → Option Text → Verdict
branch_verdict b sha none = verdict unverifiable (branch_subject b) false
branch_verdict b sha (some head) =
    verdict (if sha_match (as_text sha) (some head) then current else stale) (branch_subject b)
      false

abbrev pub head_branch : Resolver → Option Json → Option (Json × Json) → Verdict
head_branch r sha none = verdict unverifiable no_subject false
head_branch r sha (some (repo, b)) = branch_verdict b sha (r.branch_head repo b)

-- the pull request, where the repository is named and `pr` is not `None`
abbrev pub pull : Option Json → Option Json → Option (Json × Json)
pull (some repo) (some pr) = if truthy repo then some (repo, pr) else none
pull _ _ = none

-- the verdict on a pull request, by what `int(pr)` gives
abbrev pub numbered_verdict : Resolver → Option Json → Json → Json → Option Number → Option Verdict
numbered_verdict r recorded repo pr none = none
numbered_verdict r recorded repo pr (some n) = some (pr_verdict pr recorded (r.merged_state repo n))

abbrev pub head_verdict : Resolver → Claim → Option (Json × Json) → Option Verdict
head_verdict r c (some (repo, pr)) =
    numbered_verdict r (get (codes "merge_sha") (fields_of c.meta)) repo pr (int_of pr)
head_verdict r c none = some (head_branch r (repo_sha_of c) (both (repo_of c) (branch_of c)))

-- `_subject_verdict`
unfoldable pub subject_verdict : Resolver → Claim → Option Verdict
subject_verdict r c =
    let mode = mode_of c in
    if is_text (codes "timeless") mode
    then some (verdict current no_subject true)
    else if is_text (codes "interval") mode
    then some (verdict unverifiable no_subject false)
    else if is_text (codes "historical_snapshot") mode
    then some (snapshot_verdict r (repo_sha_of c) (both (repo_of c) (repo_sha_of c)))
    else head_verdict r c (pull (repo_of c) (get (codes "pr") (fields_of c.meta)))

-- whether the claim declares evidence that is not a verification
unfoldable pub is_local_evidence : Claim → Bool
is_local_evidence c =
    let s = get (codes "evidence_state") (fields_of c.meta) in
    if is_text (codes "local_attested") s then true else is_text (codes "pending_remote") s

-- `(meta.get("attestation") or {}).get("sha") or repo_sha`: a true value that is no object has no
-- `get`, and raises
unfoldable pub attested_sha : Option Json → Option Json → Option (Option Json)
unfolding or_value
attested_sha none repo_sha = some repo_sha
attested_sha (some (obj fs)) repo_sha = some (or_value (get (codes "sha") fs) repo_sha)
attested_sha (some v) repo_sha = if truthy v then none else some repo_sha

unfoldable pub evidence_sha : Claim → Option (Option Json)
unfolding attested_sha
evidence_sha c = attested_sha (get (codes "attestation") (fields_of c.meta)) (repo_sha_of c)

abbrev pub with_observed : Option Text → Option Verdict → Option Verdict
with_observed o none = none
with_observed o (some v) =
    some (record { state = v.state; subject = v.subject; terminal = v.terminal; observed = o })

-- the verdict where the evidence is the commit `sha`, and the resolver observed `o` for it
abbrev pub observed_verdict : Resolver → Claim → Option Json → Option Text → Option Verdict
observed_verdict r c sha o =
    if confirms sha o
    then with_observed o (subject_verdict r c)
    else some (verdict unverifiable no_subject false)

abbrev pub judged : Resolver → Claim → Option (Option Json) → Option Verdict
judged r c none = none
judged r c (some sha) = observed_verdict r c sha (look r (both (repo_of c) sha))

unfoldable pub reconcile_claim : Resolver → Claim → Option Verdict
reconcile_claim r c =
    if not r.enabled
    then some (verdict unverifiable no_subject false)
    else if is_local_evidence c
    then judged r c (evidence_sha c)
    else subject_verdict r c
