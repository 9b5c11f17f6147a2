-- ===== src/Store/Boundary.antt =====
-- `_boundary_meta` and `_split_meta` of storage/postgres.py: what happens to the `meta` envelope of a
-- write before anything is stored.
pub mod Laws
use mcp_assist_memory.Prelude.{
  Text, codes, Bool, true, false, not, Option, none, some, List, [], ◌∷◌, ◌&&◌, ◌||◌, text_eq,
  mem_text, any, is_some, if◌then◌else◌,
}
use mcp_assist_memory.Errors.{Code}
use mcp_assist_memory.Result.{Result, ok, ◌>>=◌, ◌>>◌, raise, raise_if}
use mcp_assist_memory.Json.{
  Json, str, obj, Fields, end, field, get, get_field, set_field, opt_truthy,
}
use mcp_assist_memory.ShaEquiv.{Ref, text, other, Lookup, validate_ref, canonicalize}
use mcp_assist_memory.Store.Rows.{MetaColumns}

abbrev pub temporal_modes : List Text
temporal_modes =
    codes "head_tracking" ∷ codes "historical_snapshot" ∷ codes "interval" ∷ codes "timeless" ∷ []

abbrev pub declarable_evidence_states : List Text
declarable_evidence_states = codes "local_attested" ∷ codes "pending_remote" ∷ []

abbrev pub attestation_raw_keys : List Text
attestation_raw_keys =
    codes "command"
    ∷ codes "cmd"
    ∷ codes "output"
    ∷ codes "stdout"
    ∷ codes "stderr"
    ∷ codes "logs"
    ∷ []

-- `v is None or v in choices`
abbrev pub none_or_in : List Text → Option Json → Bool
none_or_in choices none = true
none_or_in choices (some (str s)) = mem_text s choices
none_or_in choices (some _) = false

abbrev pub as_ref : Option Json → Ref
as_ref (some (str s)) = text s
as_ref _ = other

-- `set(attestation) & set(_ATTESTATION_RAW_KEYS)` is not empty.
unfoldable pub has_raw : Fields → Bool
unfolding any
has_raw fs = any (λ k. is_some (get_field k fs)) attestation_raw_keys

unfoldable pub check_attestation : Bool → Option Json → Result (Unit {0})
check_attestation clinical none = ok tt
check_attestation clinical (some (obj fs)) = do
  raise_if (not (opt_truthy (get (codes "sha") fs))) Code.invalid_attestation
  sha ← validate_ref (as_ref (get (codes "sha") fs))
  raise_if (clinical && has_raw fs) Code.invalid_attestation
check_attestation clinical (some _) = raise Code.invalid_attestation

abbrev pub as_repo : Option Json → Option Text
as_repo (some (str s)) = some s
as_repo _ = none

abbrev pub differs : Text → Json → Bool
differs s (str t) = not (text_eq s t)
differs s _ = true

-- `out[k] = new`, and `out[k_input] = ref` when the two differ
unfoldable pub canonical_field : Text → Text → Json → Text → Fields → Fields
canonical_field k k_input ref new out =
    let out = set_field k (str new) out in
    if differs new ref then set_field k_input ref out else out

unfoldable pub put_repo_sha : Lookup → Fields → Option Json → Fields → Result Fields
unfolding canonical_field
put_repo_sha resolver meta none out = ok out
put_repo_sha resolver meta (some ref) out = do
  normal ← validate_ref (as_ref (some ref))
  pair ← canonicalize normal (as_repo (get (codes "repo") meta)) resolver
  ok (canonical_field (codes "repo_sha") (codes "repo_sha_input") ref pair.0 out)

unfoldable pub put_base_sha : Option Json → Fields → Result Fields
unfolding canonical_field
put_base_sha none out = ok out
put_base_sha (some ref) out = do
  normal ← validate_ref (as_ref (some ref))
  ok (canonical_field (codes "base_sha") (codes "base_sha_input") ref normal out)

unfoldable pub boundary_fields : Bool → Lookup → Fields → Result Fields
boundary_fields clinical resolver meta = do
  raise_if (not (none_or_in temporal_modes (get (codes "temporal_mode") meta)))
      Code.invalid_temporal_mode
  raise_if (not (none_or_in declarable_evidence_states (get (codes "evidence_state") meta)))
      Code.invalid_evidence_state
  check_attestation clinical (get (codes "attestation") meta)
  out ← put_repo_sha resolver meta (get (codes "repo_sha") meta) meta
  put_base_sha (get (codes "base_sha") meta) out

-- A `meta` that is no object, or an empty one, passes as it is: it is `none` or stored as nothing.
unfoldable pub boundary_meta : Bool → Lookup → Option Json → Result (Option Fields)
unfolding boundary_fields
boundary_meta clinical resolver (some (obj (field k v fs))) =
    boundary_fields clinical resolver (field k v fs) >>= λ out. ok (some out)
boundary_meta clinical resolver _ = ok none

unfoldable pub split_meta : Option Fields → MetaColumns
split_meta none = record {
  repo_sha = none;
  base_sha = none;
  branch = none;
  dirty = none;
  session_id = none;
  temporal_mode = none;
}
split_meta (some meta) = record {
  repo_sha = get (codes "repo_sha") meta;
  base_sha = get (codes "base_sha") meta;
  branch = get (codes "branch") meta;
  dirty = get (codes "dirty") meta;
  session_id = get (codes "session_id") meta;
  temporal_mode = get (codes "temporal_mode") meta;
}
