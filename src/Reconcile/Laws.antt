-- ===== src/Reconcile/Laws.antt =====
-- When a claim is said to be current, and on which answer of the resolver.
use mcp_assist_memory.Prelude.{
  Text, codes, Bool, true, false, not, Option, none, some, ◌≡◌, refl, sym, subst, arith, inl, inr,
  Bool-cases, if-cases, if◌then◌else◌,
}
use mcp_assist_memory.Json.{Json, get, truthy, opt_truthy}
use mcp_assist_memory.ShaEquiv.{sha_match}
use mcp_assist_memory.Reconcile.Convert.{Number, int_of}
use mcp_assist_memory.Reconcile.{
  Merge, Resolver, Claim, current, stale, Verdict, fields_of, as_text, is_text, repo_of, branch_of,
  repo_sha_of, mode_of, both, look, confirms, snapshot_verdict, pr_verdict, branch_verdict,
  head_branch, pull, numbered_verdict, head_verdict, subject_verdict, is_local_evidence,
  evidence_sha, with_observed, judged, reconcile_claim,
}

-- the repository that a claim names
abbrev pub named_repo : Claim → Option Json
named_repo c = get (codes "repo") (fields_of c.meta)

-- The claim names a repository and, under `pr`, a value that `int` reads as the number.
abbrev pub NamesPull : Claim → Json → Json → Number → Type 0
NamesPull c repo pr n =
    (named_repo c ≡ some repo)
    × (get (codes "pr") (fields_of c.meta) ≡ some pr)
    × (int_of pr ≡ some n)

-- What makes a claim current: it has no mutable subject, or GitHub's answer agrees with it.
pub data IsObserved (r : Resolver) (c : Claim) : Type 0 where
  timeless : is_text (codes "timeless") (mode_of c) ≡ true → IsObserved r c
  pinned :
      (repo sha : Json)
      → both (named_repo c) (repo_sha_of c) ≡ some (repo, sha)
      → confirms (repo_sha_of c) (r.commit_sha repo sha) ≡ true
      → IsObserved r c
  merged_as_recorded :
      (repo pr : Json) (n : Number) (m : Merge)
      → NamesPull c repo pr n
      → r.merged_state repo n ≡ some m
      → m.merged ≡ true
      → sha_match (as_text (get (codes "merge_sha") (fields_of c.meta))) m.merge_sha ≡ true
      → IsObserved r c
  unmerged_as_recorded :
      (repo pr : Json) (n : Number) (m : Merge)
      → NamesPull c repo pr n
      → r.merged_state repo n ≡ some m
      → m.merged ≡ false
      → opt_truthy (get (codes "merge_sha") (fields_of c.meta)) ≡ false
      → IsObserved r c
  at_head :
      (repo branch : Json) (head : Text)
      → both (named_repo c) (branch_of c) ≡ some (repo, branch)
      → r.branch_head repo branch ≡ some head
      → sha_match (as_text (repo_sha_of c)) (some head) ≡ true
      → IsObserved r c

abbrev IsCurrent : Verdict → Type 0
IsCurrent v = v.state ≡ current

abbrev IsCurrentAnswer : Option Verdict → Type 0
IsCurrentAnswer none = ⊥
IsCurrentAnswer (some v) = v.state ≡ current

-- a state that is one of two, chosen by a test
chosen-current : (b : Bool) → (if b then current else stale) ≡ current → b ≡ true
chosen-current true h = refl
chosen-current false h = cc

chosen-current_not : (b : Bool) → (if b then stale else current) ≡ current → b ≡ false
chosen-current_not true h = cc
chosen-current_not false h = refl

snapshot-observed :
    (r : Resolver) (c : Claim) (o : Option (Json × Json))
    → both (repo_of c) (repo_sha_of c) ≡ o
    → (snapshot_verdict r (repo_sha_of c) o).state ≡ current
    → IsObserved r c
unfolding repo_of
snapshot-observed r c none e h = cc
snapshot-observed r c (some (repo, sha)) e h =
    elim (Bool-cases (confirms (repo_sha_of c) (r.commit_sha repo sha))) [
      | inl q ↦ pinned repo sha e q
      | inr q ↦ absurd (ground arith)
    ]

pull-some :
    (o p : Option Json) (repo pr : Json)
    → pull o p ≡ some (repo, pr)
    → (o ≡ some repo) × (p ≡ some pr)
pull-some none p repo pr h = cc
pull-some (some a) none repo pr h = cc
pull-some (some a) (some b) repo pr h =
    if-cases (truthy a) _ _ (λ (x : Option (Json × Json)). x ≡ some (repo, pr)) h (λ q k. (cc, cc))
      (λ q k. cc)

pr-observed :
    (r : Resolver) (c : Claim) (repo pr : Json) (n : Number) (o : Option Merge)
    → NamesPull c repo pr n
    → r.merged_state repo n ≡ o
    → (pr_verdict pr (get (codes "merge_sha") (fields_of c.meta)) o).state ≡ current
    → IsObserved r c
pr-observed r c repo pr n none names e h = cc
pr-observed r c repo pr n (some m) names e h =
    let recorded = get (codes "merge_sha") (fields_of c.meta) in
    if-cases m.merged _ _ IsCurrent h
      (λ q k.
        merged_as_recorded repo pr n m names e q
          (chosen-current (sha_match (as_text recorded) m.merge_sha) k))
      (λ q k.
        unmerged_as_recorded repo pr n m names e q (chosen-current_not (opt_truthy recorded) k))

branch-observed :
    (r : Resolver) (c : Claim) (o : Option (Json × Json))
    → both (repo_of c) (branch_of c) ≡ o
    → (head_branch r (repo_sha_of c) o).state ≡ current
    → IsObserved r c
unfolding repo_of
branch-observed r c none e h = cc
branch-observed r c (some (repo, b)) e h = go (r.branch_head repo b) refl h
  where
    go :
        (o : Option Text)
        → r.branch_head repo b ≡ o
        → (branch_verdict b (repo_sha_of c) o).state ≡ current
        → IsObserved r c
    go none z k = cc
    go (some head) z k =
        at_head repo b head e z (chosen-current (sha_match (as_text (repo_sha_of c)) (some head)) k)

numbered-observed :
    (r : Resolver) (c : Claim) (repo pr : Json) (o : Option Number)
    → repo_of c ≡ some repo
    → get (codes "pr") (fields_of c.meta) ≡ some pr
    → int_of pr ≡ o
    → IsCurrentAnswer (numbered_verdict r (get (codes "merge_sha") (fields_of c.meta)) repo pr o)
    → IsObserved r c
unfolding repo_of
numbered-observed r c repo pr none a b e h = absurd h
numbered-observed r c repo pr (some n) a b e h =
    pr-observed r c repo pr n (r.merged_state repo n) (a, b, e) refl h

head-observed :
    (r : Resolver) (c : Claim) (o : Option (Json × Json))
    → pull (repo_of c) (get (codes "pr") (fields_of c.meta)) ≡ o
    → IsCurrentAnswer (head_verdict r c o)
    → IsObserved r c
unfolding repo_of
head-observed r c none e h = branch-observed r c (both (repo_of c) (branch_of c)) refl h
head-observed r c (some (repo, pr)) e h =
    let (a, b) = pull-some (repo_of c) (get (codes "pr") (fields_of c.meta)) repo pr e in
    numbered-observed r c repo pr (int_of pr) a b refl h

subject_verdict-observed :
    (r : Resolver) (c : Claim) → IsCurrentAnswer (subject_verdict r c) → IsObserved r c
unfolding subject_verdict
subject_verdict-observed r c h =
    let mode = mode_of c in
    let named = pull (repo_of c) (get (codes "pr") (fields_of c.meta)) in
    if-cases (is_text (codes "timeless") mode) _ _ IsCurrentAnswer h (λ q k. timeless q)
      (λ q k.
        if-cases (is_text (codes "interval") mode) _ _ IsCurrentAnswer k (λ z l. absurd (cc))
          (λ z l.
            if-cases (is_text (codes "historical_snapshot") mode) _ _ IsCurrentAnswer l
              (λ w n. snapshot-observed r c (both (repo_of c) (repo_sha_of c)) refl n)
              (λ w n. head-observed r c named refl n)))

-- The commit that the claim's evidence names was observed in the claim's repository.
abbrev pub IsConfirmed : Resolver → Claim → Type 0
IsConfirmed r c =
    (sha : Option Json) × (evidence_sha c ≡ some sha)
    × (confirms sha (look r (both (named_repo c) sha)) ≡ true)

-- What a verdict of `current` rests on.
pub record IsGrounded (r : Resolver) (c : Claim) : Type 0 where
  pub enabled : r.enabled ≡ true
  pub observed : IsObserved r c
  pub evidence : is_local_evidence c ≡ true → IsConfirmed r c

with_observed-current :
    (o : Option Text) (v : Option Verdict) → IsCurrentAnswer (with_observed o v) → IsCurrentAnswer v
with_observed-current o none h = h
with_observed-current o (some v) h = h

judged-observed :
    (r : Resolver) (c : Claim) (s : Option (Option Json))
    → evidence_sha c ≡ s
    → IsCurrentAnswer (judged r c s)
    → IsObserved r c × IsConfirmed r c
unfolding repo_of
judged-observed r c none e h = absurd h
judged-observed r c (some sha) e h =
    let o = look r (both (repo_of c) sha) in
    if-cases (confirms sha o) _ _ IsCurrentAnswer h
      (λ w n. (
        subject_verdict-observed r c (with_observed-current o (subject_verdict r c) n),
        (sha, e, w),
      ))
      (λ w n. absurd (cc))

grounded : (r : Resolver) (c : Claim) → IsCurrentAnswer (reconcile_claim r c) → IsGrounded r c
unfolding reconcile_claim
grounded r c h =
    if-cases (not r.enabled) _ _ IsCurrentAnswer h (λ q k. absurd (cc))
      (λ q k.
        if-cases (is_local_evidence c) _ _ IsCurrentAnswer k
          (λ z l.
            let (a, b) = judged-observed r c (evidence_sha c) refl l in
            record { enabled = ground arith; observed = a; evidence = λ _. b })
          (λ z l. record {
            enabled = ground arith;
            observed = subject_verdict-observed r c l;
            evidence = λ y. absurd (ground arith);
          }))

-- Where the reconciler returns a verdict of `current`, the claim is not taken at its own word: the
-- resolver is enabled, and its answer about the repository and the commit, pull request or branch
-- that the claim names agrees with the claim (or the claim is timeless); and where the claim declares
-- local evidence, the attested commit was observed in that repository.
pub reconcile_claim-IsGrounded :
    (r : Resolver) (c : Claim) (v : Verdict)
    → reconcile_claim r c ≡ some v
    → v.state ≡ current
    → IsGrounded r c
reconcile_claim-IsGrounded r c v e h = grounded r c (subst IsCurrentAnswer (sym e) h)
