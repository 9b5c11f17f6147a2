-- ===== src/Reconcile/Tests.antt =====
-- The verdict on concrete claims.
use mcp_assist_memory.Prelude.{
  codes, true, false, none, some, ◌≡◌, refl, text_eq, lower, starts_with, keep,
}
use mcp_assist_memory.Json.{str, float, end, field, get, get_field, truthy}
use mcp_assist_memory.Reconcile.Convert.{int_of, int_of_float, digits, skip_space, drop_space}
use mcp_assist_memory.ShaEquiv.{sha_match}
use mcp_assist_memory.Reconcile.{
  Resolver, Claim, Subject, Verdict, verdict, current, reconcile_claim, subject_verdict,
  is_local_evidence, mode_of, repo_of, repo_sha_of, branch_of, or_value, both, evidence_sha,
  attested_sha,
}
use mcp_assist_memory.Reconcile.Laws.{IsGrounded, reconcile_claim-IsGrounded}

abbrev github : Resolver
github = record {
  enabled = true;
  merged_state = λ repo pr. some (record { merged = true; merge_sha = some (codes "abcdef1234") });
  branch_head = λ repo branch. some (codes "abcdef1234");
  commit_sha = λ repo ref. none;
}

abbrev at_merge : Claim
at_merge = record {
  meta = some (
      field (codes "repo") (str (codes "a/b")) (
        field (codes "pr") (str (codes " 1_2 "))
          (field (codes "merge_sha") (str (codes "abcdef1")) end)));
  branch = none;
  repo_sha = none;
  temporal_mode = none;
}

-- an attestation that is no object
abbrev misattested : Claim
misattested = record {
  meta = some (
      field (codes "evidence_state") (str (codes "local_attested"))
        (field (codes "attestation") (str (codes "abcdef1")) end));
  branch = none;
  repo_sha = none;
  temporal_mode = none;
}

abbrev merged_current : Verdict
merged_current = verdict current (Subject.pull_request (str (codes " 1_2 "))) false

at_merge_current : reconcile_claim github at_merge ≡ some merged_current
unfolding reconcile_claim subject_verdict is_local_evidence mode_of repo_of repo_sha_of branch_of
    or_value both get get_field text_eq truthy sha_match lower starts_with int_of digits skip_space
    drop_space keep
at_merge_current = refl

misattested_raises : reconcile_claim github misattested ≡ none
unfolding reconcile_claim is_local_evidence evidence_sha attested_sha repo_sha_of or_value get
    get_field text_eq truthy
misattested_raises = refl

int_of_text : int_of (str (codes "-0x1")) ≡ none
unfolding int_of digits skip_space drop_space keep
int_of_text = refl

-- -2.75
int_of_double :
    int_of (float 13836746905142427648) ≡ some (record { negative = true; magnitude = 2 })
unfolding int_of int_of_float
int_of_double = refl

reconcile_claim-IsGrounded_example : IsGrounded github at_merge
reconcile_claim-IsGrounded_example =
    reconcile_claim-IsGrounded github at_merge merged_current at_merge_current refl
