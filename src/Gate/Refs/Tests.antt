-- ===== src/Gate/Refs/Tests.antt =====
-- A goal that names a branch which a constraint does not allow.
use mcp_assist_memory.Prelude.{codes, none, some, [], ◌∷◌, ◌≡◌, refl, text_eq, keep}
use mcp_assist_memory.Json.{str, obj, end, field, get, get_field, truthy}
use mcp_assist_memory.Store.Rows.{Row, is_live}
use mcp_assist_memory.Store.Listing.{distinct_on_key, insert_key}
use mcp_assist_memory.Store.Listing.Tests.{blank, by_code}
use mcp_assist_memory.Gate.Refs.{
  Finders, Contradiction, contradicts, extract_refs, sorted_set, put_sorted, coding, differs_from,
  check_constraints, scan_rows, constraint_rows, structured_conflict,
}
use mcp_assist_memory.Gate.Refs.Laws.{IsBranchConflict, structured_conflict-IsBranchConflict}

abbrev pub finders : Finders
finders = record {
  branches_in = λ goal. codes "dev" ∷ [];
  shas_in = λ goal. [];
  prs_in = λ goal. [];
  show = λ v. [];
}

abbrev pub constraint : Row
constraint = record {
  draft = record blank {
    meta = some (
        field (codes "structured") (obj (field (codes "allowed_branch") (str (codes "main")) end))
          end);
  };
  id = 4;
  revision = 2;
  created_at = 100;
}

abbrev pub found : Contradiction
found = record {
  key = codes "k";
  revision = 2;
  revision_id = 4;
  contradicted = "allowed_branch";
  declared = codes "dev";
  allowed = str (codes "main");
}

pub found_conflict :
    structured_conflict finders by_code 200 (codes "n") (codes "x") (constraint ∷ [])
    ≡ contradicts found
unfolding structured_conflict extract_refs sorted_set put_sorted coding constraint_rows scan_rows
    check_constraints differs_from distinct_on_key insert_key is_live text_eq keep get get_field
    truthy
found_conflict = refl

structured_conflict-IsBranchConflict_example :
    IsBranchConflict
      (extract_refs finders (some (codes "x") ∷ []) none)
      (constraint_rows by_code 200 (codes "n") (constraint ∷ []))
      found
structured_conflict-IsBranchConflict_example =
    structured_conflict-IsBranchConflict finders by_code 200 (codes "n") (codes "x")
      (constraint ∷ []) found found_conflict
