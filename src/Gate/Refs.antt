-- ===== src/Gate/Refs.antt =====
-- storage/gate.py: the references in an intent, and the constraints that it may contradict. What the
-- three patterns find in a text is a parameter.
pub mod Laws
pub mod Tests
use mcp_assist_memory.Prelude.{
  ℕ, Text, codes, Bool, true, false, not, Option, none, some, List, [], ◌∷◌, ◌++◌, ◌&&◌, ◌||◌,
  text_eq, keep, find, take, is_some, if◌then◌else◌, String,
}
use mcp_assist_memory.Json.{Json, str, obj, Fields, get, get_field, truthy, text_lt}
use mcp_assist_memory.Store.Rows.{Row, Table, is_live}
use mcp_assist_memory.Store.Listing.{Collation, distinct_on_key}

-- what the patterns find, in order, and `str` of a JSON value
pub record Finders : Type 0 where
  pub branches_in : Text → List Text
  pub shas_in : Text → List Text
  pub prs_in : Text → List Text
  pub show : Json → Text

pub record Refs : Type 0 where
  pub branches : List Text
  pub repos : List Text
  pub prs : List Text
  pub shas : List Text

-- `sorted(set(…))`
unfoldable pub put_sorted : Text → List Text → List Text
put_sorted s [] = s ∷ []
put_sorted s (t ∷ ts) =
    if text_eq s t then t ∷ ts else if text_lt s t then s ∷ t ∷ ts else t ∷ put_sorted s ts

unfoldable pub sorted_set : List Text → List Text
unfolding put_sorted
sorted_set [] = []
sorted_set (s ∷ ss) = put_sorted s (sorted_set ss)

module _ (finders : Finders) where
  open finders use {branches_in, shas_in, prs_in, show}

  -- what a finder finds in the texts that are there
  abbrev pub found_in : (Text → List Text) → List (Option Text) → List Text
  found_in f [] = []
  found_in f (none ∷ texts) = found_in f texts
  found_in f (some [] ∷ texts) = found_in f texts
  found_in f (some (c ∷ s) ∷ texts) = f (c ∷ s) ++ found_in f texts

  abbrev shown_if : Bool → Json → List Text
  shown_if true v = show v ∷ []
  shown_if false v = []

  -- `if meta.get(k): ….append(str(meta[k]))`
  abbrev shown_value : Option Json → List Text
  shown_value none = []
  shown_value (some v) = shown_if (truthy v) v

  abbrev pub from_meta : Option Fields → Text → List Text
  from_meta none k = []
  from_meta (some meta) k = shown_value (get k meta)

  abbrev shown_pr : Option Json → List Text
  shown_pr none = []
  shown_pr (some v) = show v ∷ []

  abbrev pr_from : Option Fields → List Text
  pr_from none = []
  pr_from (some meta) = shown_pr (get (codes "pr") meta)

  unfoldable pub extract_refs : List (Option Text) → Option Fields → Refs
  unfolding sorted_set
  extract_refs texts meta = record {
    branches = sorted_set (found_in branches_in texts ++ from_meta meta (codes "branch"));
    repos = sorted_set (from_meta meta (codes "repo"));
    prs = sorted_set (found_in prs_in texts ++ pr_from meta);
    shas = sorted_set (
        found_in shas_in texts
        ++ (from_meta meta (codes "repo_sha")
            ++ (from_meta meta (codes "base_sha") ++ from_meta meta (codes "sha"))));
  }

abbrev any_ref : List Text → Bool
any_ref [] = false
any_ref (s ∷ ss) = true

unfoldable pub coding : Refs → Bool
coding r = any_ref r.branches || (any_ref r.repos || (any_ref r.prs || any_ref r.shas))

-- the contradiction that `_structured_conflict` returns; the field is named as in the source
pub record Contradiction : Type 0 where
  pub key : Text
  pub revision : ℕ
  pub revision_id : ℕ
  pub contradicted : String
  pub declared : Text
  pub allowed : Json

-- Nothing, a contradiction, or the AttributeError of `.get` on a value that is no object.
pub data Scan : Type 0 where
  consistent : Scan
  contradicts : Contradiction → Scan
  attribute_error : Scan

-- `x != allowed`
unfoldable pub differs_from : Json → Text → Bool
differs_from (str s) t = not (text_eq s t)
differs_from _ t = true

-- the declared references that a constraint does not allow; a constraint that is falsy allows all
abbrev pub bad : Option Json → List Text → List Text
bad none refs = []
bad (some allowed) refs = if truthy allowed then keep (differs_from allowed) refs else []

abbrev contradiction : Row → String → Option Json → Text → Scan
contradiction r name none x = consistent
contradiction r name (some allowed) x = contradicts (record {
  key = r.key;
  revision = r.revision;
  revision_id = r.id;
  contradicted = name;
  declared = x;
  allowed = allowed;
})

abbrev pub first_bad : Row → String → Option Json → List Text → Scan → Scan
first_bad r name allowed [] next = next
first_bad r name allowed (x ∷ xs) next = contradiction r name allowed x

-- the two constraints of one row, and what comes after it
unfoldable pub check_constraints : Refs → Row → Fields → Scan → Scan
unfolding differs_from
check_constraints refs r structured next =
    let branch = get (codes "allowed_branch") structured in
    let repo = get (codes "allowed_repo") structured in
    first_bad r "allowed_branch" branch (bad branch refs.branches)
      (first_bad r "allowed_repo" repo (bad repo refs.repos) next)

abbrev pub structured_of : Row → Option Json
structured_of r = elim r.meta [ none ↦ none | some meta ↦ get (codes "structured") meta ]

-- `(…) or {}` on the value, and the checks where it is an object
abbrev pub check_structured : Refs → Row → Option Json → Scan → Scan
check_structured refs r none next = next
check_structured refs r (some (obj fs)) next = check_constraints refs r fs next
check_structured refs r (some v) next = if truthy v then attribute_error else next

unfoldable pub scan_rows : Refs → List Row → Scan
unfolding check_constraints
scan_rows refs [] = consistent
scan_rows refs (r ∷ rs) =
    let next = scan_rows refs rs in check_structured refs r (structured_of r) next

-- `meta ? 'structured'`
abbrev pub has_structured : Row → Bool
has_structured r = elim r.meta [
  | none ↦ false
  | some meta ↦ is_some (get_field (codes "structured") meta)
]

abbrev pub constraint_limit : ℕ
constraint_limit = 100

unfoldable pub constraint_rows : Collation → ℕ → Text → Table → List Row
unfolding distinct_on_key
constraint_rows order now ns t = take constraint_limit (
    keep (λ r. is_live now r && not r.quarantined)
      (distinct_on_key order (keep (λ r. text_eq ns r.namespace && has_structured r) t)))

unfoldable pub structured_conflict : Finders → Collation → ℕ → Text → Text → Table → Scan
unfolding extract_refs coding constraint_rows scan_rows
structured_conflict finders order now ns goal t =
    let refs = extract_refs finders (some goal ∷ []) none in
    if coding refs then scan_rows refs (constraint_rows order now ns t) else consistent
