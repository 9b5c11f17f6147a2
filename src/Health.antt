-- ===== src/Health.antt =====
-- `coord_health` of storage/postgres.py: which live entries pin an old commit, which descend from
-- tainted entries, and which claims want another verification. A set is a list without repetitions,
-- and `pop` takes the first of it. Times are seconds, and `limit` is a natural number. Of the report,
-- `duplicate_content`, `claim_collisions` and `skepticism` are left out.
pub mod Lineage
pub mod Total
pub mod Report
pub mod Reverify
pub mod Tests
use mcp_assist_memory.Prelude.{
  ℕ, zero, suc, ◌+◌, ◌-◌, ◌*◌, Text, codes, Bool, true, false, not, Option, none, some, List, [],
  ◌∷◌, ◌++◌, ◌&&◌, ◌||◌, ltb, leb, ◌==◌, text_eq, mem_text, starts_with, keep, find, drop, length,
  take, is_some, if◌then◌else◌,
}
use mcp_assist_memory.Json.{Json, str, obj, get}
use mcp_assist_memory.ShaEquiv.{equivalent}
use mcp_assist_memory.Store.Rows.{Row, Table, is_live}
use mcp_assist_memory.Store.Listing.{Collation, distinct_on_key}

abbrev pub reconcile_prefix : Text
reconcile_prefix = codes "coord/_reconcile/"

-- the live rows of a namespace but the `_meta/` records
unfoldable pub health_rows : Collation → ℕ → Text → Table → List Row
unfolding distinct_on_key
health_rows order now ns t =
    keep (λ r. is_live now r && not (starts_with r.key (codes "_meta/")))
      (distinct_on_key order (keep (λ r. text_eq ns r.namespace) t))

abbrev pub non_head_modes : List Text
non_head_modes = codes "historical_snapshot" ∷ codes "interval" ∷ codes "timeless" ∷ []

abbrev pub is_non_head : Option Json → Bool
is_non_head (some (str mode)) = mem_text mode non_head_modes
is_non_head _ = false

-- the text of `repo_sha`, where there is one
abbrev pub sha_of : Option Json → Option Text
sha_of (some (str (c ∷ s))) = some (c ∷ s)
sha_of _ = none

-- `r["repo_sha"] and r.get("temporal_mode") not in _NON_HEAD_MODES`
unfoldable pub is_head_bound : Row → Bool
is_head_bound r = is_some (sha_of r.columns.repo_sha) && not (is_non_head r.columns.temporal_mode)

-- `max(with_sha, key=lambda r: r["created_at"])`: the first of the newest
unfoldable pub newest : Row → List Row → Row
newest best [] = best
newest best (r ∷ rs) = newest (if ltb best.created_at r.created_at then r else best) rs

abbrev pub newest_of : List Row → Option Row
newest_of [] = none
newest_of (r ∷ rs) = some (newest r rs)

abbrev pub sha_of_row : Option Row → Option Text
sha_of_row none = none
sha_of_row (some r) = sha_of r.columns.repo_sha

unfoldable pub latest_repo_sha : List Row → Option Text
unfolding newest is_head_bound
latest_repo_sha rows = sha_of_row (newest_of (keep is_head_bound rows))

unfoldable pub stale : List Row → List Row
unfolding is_head_bound latest_repo_sha
stale rows =
    keep (λ r. not (equivalent (sha_of r.columns.repo_sha) (latest_repo_sha rows)))
      (keep is_head_bound rows)

-- `dict.get` on an association list whose keys stand once
module _ {V : Type 0} where
  unfoldable pub get_key : Text → List (Text × V) → Option V
  get_key k [] = none
  get_key k ((j, v) ∷ m) = if text_eq j k then some v else get_key k m

  -- `d[k] = v`
  unfoldable pub put_key : Text → V → List (Text × V) → List (Text × V)
  put_key k v [] = (k, v) ∷ []
  put_key k v ((j, w) ∷ m) = if text_eq j k then (j, v) ∷ m else (j, w) ∷ put_key k v m

pub data Taint : Type 0 where
  is_quarantined reconcile_falsified : Taint

abbrev is_text : Text → Option Json → Bool
is_text t (some (str s)) = text_eq s t
is_text t _ = false

-- `verdict.get("state") == …`, where the value is an object
abbrev pub state_is : Text → Json → Bool
state_is state (obj fs) = is_text state (get (codes "state") fs)
state_is state _ = false

-- `d.setdefault(k, v)`
abbrev pub default_key : Text → Taint → List (Text × Taint) → List (Text × Taint)
default_key k v m = if is_some (get_key k m) then m else put_key k v m

-- one round of the loop that collects the tainted roots
unfoldable pub taint_row : Row → List (Text × Taint) → List (Text × Taint)
unfolding get_key put_key
taint_row r m =
    let m' = if r.quarantined then put_key r.key is_quarantined m else m in
    if starts_with r.key reconcile_prefix && state_is (codes "stale") r.value
    then default_key (drop (length reconcile_prefix) r.key) reconcile_falsified m'
    else m'

unfoldable pub tainted_from : List Row → List (Text × Taint) → List (Text × Taint)
unfolding taint_row
tainted_from [] m = m
tainted_from (r ∷ rs) m = tainted_from rs (taint_row r m)

-- `str(ref).split("@", 1)[0]`
unfoldable pub before_at : Text → Text
before_at [] = []
before_at (c ∷ s) = if c == 64 then [] else c ∷ before_at s

-- `frontier |= …`
unfoldable pub union : List Text → List Text → List Text
union [] ks = ks
union (j ∷ js) ks = union js (if mem_text j ks then ks else j ∷ ks)

unfoldable pub keys_of_refs : List Text → List Text
unfolding before_at
keys_of_refs [] = []
keys_of_refs (ref ∷ refs) = union (before_at ref ∷ []) (keys_of_refs refs)

-- `parents`: the keys that the entries of a key name in `derived_from`
unfoldable pub parents_of : List Row → List (Text × List Text)
unfolding keys_of_refs
parents_of [] = []
parents_of (r ∷ rs) = elim r.derived_from [
  | none ↦ parents_of rs
  | some [] ↦ parents_of rs
  | some (d ∷ ds) ↦ (r.key, keys_of_refs (d ∷ ds)) ∷ parents_of rs
]

abbrev pub or_empty : Option (List Text) → List Text
or_empty none = []
or_empty (some ks) = ks

-- The loop over the ancestors of one entry: `seen`, `frontier` and `hit_roots`.
module _ (tainted : List (Text × Taint)) (parents : List (Text × List Text)) where
  abbrev pub parents_at : Text → List Text
  parents_at p = or_empty (get_key p parents)

  unfoldable pub climb : ℕ → List Text → List Text → List Text → Option (List Text)
  unfolding get_key union
  climb zero seen frontier hits = none
  climb (suc fuel) seen [] hits = some hits
  climb (suc fuel) seen (p ∷ rest) hits = elim (mem_text p seen) [
    | true ↦ climb fuel seen rest hits
    | false ↦
        climb fuel (p ∷ seen) (union (parents_at p) rest)
          (if is_some (get_key p tainted) then p ∷ hits else hits)
  ]

-- every key that some entry names, as often as it is named
unfoldable pub named : List (Text × List Text) → List Text
named [] = []
named ((k, ps) ∷ m) = ps ++ named m

-- Each round takes a key off the frontier, and only a key not seen before adds any.
unfoldable pub climb_fuel : List (Text × List Text) → ℕ
unfolding named
climb_fuel parents = let n = length (named parents) in suc (n * suc n + n)

pub record TaintedLineage : Type 0 where
  pub key : Text
  pub ancestors : List Text

-- the entries with a tainted ancestor
unfoldable pub lineage_of :
    List (Text × Taint) → List (Text × List Text) → List (Text × List Text) → List TaintedLineage
unfolding climb climb_fuel
lineage_of tainted parents [] = []
lineage_of tainted parents ((key, ps) ∷ m) =
    elim (climb tainted parents (climb_fuel parents) [] ps []) [
      | some (h ∷ hits) ↦ record { key = key; ancestors = h ∷ hits } ∷ lineage_of tainted parents m
      | _ ↦ lineage_of tainted parents m
    ]

unfoldable pub tainted_lineage : List Row → List TaintedLineage
unfolding tainted_from parents_of lineage_of
tainted_lineage rows =
    let parents = parents_of rows in lineage_of (tainted_from rows []) parents parents

pub data Reason : Type 0 where
  never_reconciled unverifiable verdict_expired : Reason

-- whether a row is the verdict on the claim of a key
unfoldable pub is_verdict_on : Text → Row → Bool
is_verdict_on key r =
    starts_with r.key reconcile_prefix && text_eq (drop (length reconcile_prefix) r.key) key

-- `verdict_by_claim.get(key)`
unfoldable pub verdict_for : Text → List Row → Option Row
unfolding is_verdict_on find
verdict_for key rows = find (is_verdict_on key) rows

unfoldable pub is_claim : Row → Bool
is_claim r = text_eq r.kind (codes "claim") && not (starts_with r.key reconcile_prefix)

-- what is wrong with the verdict on a claim, if anything
unfoldable pub reverify : ℕ → ℕ → Option Row → Option Reason
reverify now window none = some never_reconciled
reverify now window (some v) =
    if state_is (codes "unverifiable") v.value
    then some unverifiable
    else if ltb window (now - v.created_at)
    then some verdict_expired
    else none

unfoldable pub reverify_claims : ℕ → ℕ → List Row → List Row → List (Text × Reason)
unfolding reverify verdict_for
reverify_claims now window rows [] = []
reverify_claims now window rows (c ∷ cs) =
    let more = reverify_claims now window rows cs in
    elim (reverify now window (verdict_for c.key rows)) [
      | none ↦ more
      | some reason ↦ (c.key, reason) ∷ more
    ]

unfoldable pub needs_reverification : ℕ → ℕ → List Row → List (Text × Reason)
unfolding reverify_claims is_claim
needs_reverification now window rows = reverify_claims now window rows (keep is_claim rows)

-- how many entries are in quarantine
unfoldable pub quarantined_count : List Row → ℕ
unfolding keep
quarantined_count rows = length (keep (λ r. r.quarantined) rows)

pub record HealthReport : Type 0 where
  pub entry_count : ℕ
  pub latest : Option Text
  pub stale_entries : List Row
  pub quarantined : ℕ
  pub tainted : List TaintedLineage
  pub unverified : List (Text × Reason)

-- what `coord_health` returns for a staleness window in seconds; its lists are cut at `limit`
unfoldable pub coord_health : Collation → ℕ → ℕ → ℕ → Text → Table → HealthReport
unfolding health_rows latest_repo_sha stale quarantined_count tainted_lineage needs_reverification
coord_health order now window limit ns t =
    let rows = health_rows order now ns t in
    record {
      entry_count = length rows;
      latest = latest_repo_sha rows;
      stale_entries = take limit (stale rows);
      quarantined = quarantined_count rows;
      tainted = take limit (tainted_lineage rows);
      unverified = take limit (needs_reverification now window rows);
    }
