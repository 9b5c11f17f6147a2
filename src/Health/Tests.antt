-- ===== src/Health/Tests.antt =====
-- The report on a small namespace.
use mcp_assist_memory.Prelude.{
  ℕ, Text, codes, true, some, List, [], ◌∷◌, ◌++◌, ◌≡◌, ◌⊎◌, refl, All, In, inl, inr, text_eq,
  mem_text, length, keep, find, starts_with, map,
}
use mcp_assist_memory.Json.{str, obj, end, field, get, get_field, text_lt}
use mcp_assist_memory.Store.Rows.{Row, is_live}
use mcp_assist_memory.Store.Listing.{distinct_on_key}
use mcp_assist_memory.Store.Listing.Tests.{blank, by_code}
use mcp_assist_memory.Health.{
  Reason, TaintedLineage, climb, climb_fuel, union, before_at, get_key, put_key, taint_row,
  tainted_from, parents_of, keys_of_refs, lineage_of, tainted_lineage, reconcile_prefix, is_claim,
  needs_reverification, reverify_claims, verdict_for, health_rows, coord_health,
}
use mcp_assist_memory.Health.Report.{IsReport, Reports, tainted_lineage-exact}
use mcp_assist_memory.Health.Reverify.{IsVerified, needs_reverification-covers}

abbrev child : Text → List Text → ℕ → Row
child key from id = record {
  draft = record blank { key = key; derived_from = some from };
  id = id;
  revision = 1;
  created_at = 100;
}

abbrev poisoned : Row
poisoned = record {
  draft = record blank { key = codes "p"; quarantined = true };
  id = 1;
  revision = 1;
  created_at = 100;
}

abbrev claim : Row
claim = record {
  draft = record blank { key = codes "c"; kind = codes "claim" };
  id = 7;
  revision = 1;
  created_at = 100;
}

abbrev claim_verdict : Row
claim_verdict = record {
  draft = record blank {
    key = reconcile_prefix ++ codes "c";
    value = obj (field (codes "state") (str (codes "current")) end);
  };
  id = 8;
  revision = 1;
  created_at = 150;
}

-- `b` stems from `a`, which stems from `p`; `a` and `c2` name each other
abbrev rows : List Row
rows =
    poisoned
    ∷ child (codes "a") (codes "p@1" ∷ codes "c2" ∷ []) 2
    ∷ child (codes "b") (codes "a@2" ∷ []) 3
    ∷ child (codes "c2") (codes "a" ∷ []) 4
    ∷ child (codes "d") (codes "q" ∷ []) 5
    ∷ claim
    ∷ claim_verdict
    ∷ []

lineage_keys :
    map (λ (x : TaintedLineage). x.key) (tainted_lineage rows)
    ≡ codes "a" ∷ codes "b" ∷ codes "c2" ∷ []
unfolding tainted_lineage tainted_from taint_row get_key put_key parents_of keys_of_refs before_at
    union mem_text lineage_of climb climb_fuel text_eq starts_with get get_field
lineage_keys = refl

needs : needs_reverification 200 40 rows ≡ (codes "c", Reason.verdict_expired) ∷ []
unfolding needs_reverification reverify_claims is_claim verdict_for find keep text_eq starts_with
    get get_field
needs = refl

claim_IsClaim : is_claim claim ≡ true
unfolding is_claim text_eq starts_with
claim_IsClaim = refl

claim_In : In claim (health_rows by_code 200 (codes "n") rows)
unfolding health_rows distinct_on_key is_live keep text_eq starts_with text_lt
claim_In = inr (inr (inl refl))

needs_reverification-covers_example :
    let report = (coord_health by_code 200 40 50 (codes "n") rows).unverified in
    ((reason : Reason) × In {A = Text × Reason} (claim.key, reason) report)
    ⊎ (IsVerified 200 40 (health_rows by_code 200 (codes "n") rows) claim ⊎ (length report ≡ 50))
needs_reverification-covers_example =
    needs_reverification-covers by_code 200 40 50 (codes "n") rows claim claim_In claim_IsClaim

tainted_lineage-exact_example :
    let live = health_rows by_code 200 (codes "n") rows in
    let report = (coord_health by_code 200 40 50 (codes "n") rows).tainted in
    All (IsReport (tainted_from live []) (parents_of live) (parents_of live)) report
    × ((length report ≡ 50)
        ⊎ Reports (tainted_from live []) (parents_of live) (parents_of live) report)
tainted_lineage-exact_example = tainted_lineage-exact by_code 200 40 50 (codes "n") rows
