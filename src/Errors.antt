-- ===== src/Errors.antt =====
-- errors/catalog.py: the error codes, the catalog of remedies and `AppError`. The prose of a message
-- is not kept; what is kept of `context` is the rule that a gate verdict names.
use mcp_assist_memory.Prelude.{String, Bool, true, false, Option, none, some, or_else}

-- The codes of the catalog, and the one that raise sites use without an entry there.
pub data Code : Type 0 where
  mcp_session_stale unauthorized unknown_arg artifact_not_found invalid_base64 : Code
  artifact_too_large invalid_cursor session_not_found invalid_kind invalid_origin : Code
  write_verification_failed write_conflict db_unavailable acl_denied observations_disabled : Code
  invalid_observation idempotency_conflict unrepresentable_number invalid_role : Code
  invalid_evidence_state invalid_attestation invalid_temporal_mode invalid_sha : Code
  ambiguous_sha curator_family_conflict gate_blocked invalid_argument : Code

-- `CATALOG.get(code)`: the default remedy and whether a retry makes sense.
unfoldable pub catalog : Code → Option (String × Bool)
catalog mcp_session_stale =
    some ("instance was asleep — re-initialize the MCP session and retry", true)
catalog unauthorized = some (
  "authenticate with 'Authorization: Bearer <token>' (or ?token= for headerless clients); tokens are managed in /admin",
  false,
)
catalog unknown_arg = some (
  "remove or rename the argument; the error message lists the valid arguments (did-you-mean included when close)",
  false,
)
catalog artifact_not_found = some (
  "dangling artifact hash — re-upload the blob with artifact_put before referencing its sha256",
  false,
)
catalog invalid_base64 =
    some ("content_base64 must be standard base64 of the raw bytes; re-encode and retry", false)
catalog artifact_too_large = some (
  "store large objects in object storage and reference the sha256 instead of inlining the bytes",
  false,
)
catalog invalid_cursor =
    some ("pass the next_cursor value from the previous memory_list response, unmodified", false)
catalog session_not_found = some (
  "no session with that session_id exists in this namespace — call session_create first, and check you passed the right namespace",
  false,
)
catalog invalid_kind =
    some ("kind must be one of note|decision|todo|handoff|config|claim|knowledge", false)
catalog invalid_origin =
    some ("origin must be one of tool|retrieval|synthesized|human|unknown", false)
catalog write_verification_failed = some (
  "the write could not be verified through the public read path — the ack would have been a lie; retry the write (it may not have persisted)",
  true,
)
catalog write_conflict =
    some ("concurrent writers exhausted the revision-collision retries — retry the write", true)
catalog db_unavailable = some (
  "the backing database dropped the connection repeatedly — wait and retry; check /healthz", true,
)
catalog acl_denied = some (
  "this token's TOKEN_NAMESPACE_ACL does not allow that namespace — use a namespace within your allowlist or ask the operator to extend the ACL",
  false,
)
catalog observations_disabled = some (
  "observation_log is disabled in clinical=true namespaces (free-text channel, PHI gate) — log the observation in a non-clinical namespace",
  false,
)
catalog invalid_observation = some (
  "category must be one of ergonomics|error_recovery|advisory|screening|docs_gap|surprise|suggestion and severity one of blocker|friction|note",
  false,
)
catalog idempotency_conflict = some (
  "this event_id was already used with a DIFFERENT payload (the draft's 422 case) — reusing a key across payloads is MUST NOT; mint a fresh event_id for new content, or resend the original payload byte-identically to receive the original ack",
  false,
)
catalog unrepresentable_number = some (
  "RFC 8785 (JCS) cannot canonicalize NaN/Infinity (hard error, never skipped) or integers beyond 2^53 — encode such numbers as JSON strings in fingerprinted payloads",
  false,
)
catalog invalid_role = some (
  "role must be one of author|observer|verifier|curator|approver (or omitted) — it records the capacity you wrote in; nothing is gated on it in this phase",
  false,
)
catalog invalid_evidence_state = some (
  "declare evidence_state local_attested or pending_remote; remote_confirmed is assigned only by coord_reconcile observing the sha remotely — it can never be self-declared",
  false,
)
catalog invalid_attestation = some (
  "meta.attestation must be an object with at least the attested sha; carry hashes (command_hash, evidence_hash), never raw commands or output — raw fields are rejected in clinical namespaces",
  false,
)
catalog invalid_temporal_mode = some (
  "temporal_mode must be one of head_tracking|historical_snapshot|interval|timeless (or omitted for advisory inference)",
  false,
)
catalog invalid_sha = some (
  "meta.repo_sha/base_sha must be a hex commit sha, 7..40 chars (git's default abbreviation up to the full sha) — fix the ref and retry; prefer recording the full 40-char sha",
  false,
)
catalog ambiguous_sha = some (
  "the abbreviated sha matches more than one commit upstream — record more characters (ideally the full 40-char sha) and retry",
  false,
)
catalog curator_family_conflict = some (
  "CURATOR_FAMILY_MUST_DIFFER_FROM forbids same-family curation of these entries — configure a curator from a different model family",
  false,
)
catalog gate_blocked = some (
  "the intent gate blocked this call by a deterministic rule — context.gate names the rule and tier. Resolve the named conflict (open/refresh the intent, fix the contradicting key, or use the confirm_token flow); an operator can retry with meta.gate_override plus a real actor, which executes AND counts a false_positive in gate/efficacy for threshold review — never a silent override",
  false,
)
catalog _ = none

pub record AppError : Type 0 where
  pub code : Code
  pub remedy : Option String
  pub retryable : Bool
  pub rule : Option String

default_remedy : Option (String × Bool) → Option String
default_remedy none = none
default_remedy (some (r, b)) = some r

default_retryable : Option (String × Bool) → Bool
default_retryable none = false
default_retryable (some (r, b)) = b

abbrev first_some : Option String → Option String → Option String
first_some (some r) d = some r
first_some none d = d

-- `AppError(code, message, remedy=remedy, retryable=retryable, gate={"rule": rule})`
unfoldable pub app_error : Code → Option String → Option Bool → Option String → AppError
unfolding catalog default_remedy default_retryable
app_error code remedy retryable rule = record {
  code = code;
  remedy = first_some remedy (default_remedy (catalog code));
  retryable = or_else retryable (default_retryable (catalog code));
  rule = rule;
}

-- `raise AppError(code, message)`
pub raised : Code → AppError
unfolding app_error
raised code = app_error code none none none
