-- ===== src/Lib.antt =====
-- mcp-assist-memory is a memory server for coding agents: an append-only table of revisioned entries in
-- Postgres, written and read by tools, with a gate before the writes and reconciliation of claims
-- against GitHub. This library models the parts that decide something.
--
-- The parts, and how they interact. A write (`memory_save`, `memory_delete`) is first put before the
-- intent gate where the namespace has it switched on. It is then sanitized and screened, its commit
-- references pass the write boundary, its fingerprint is taken, and the row is inserted under retries
-- while other writers commit; the acknowledgement is given only after the row is read back. Reads see
-- the latest revision of a key. Claims are reconciled on request, semantic reads pass a guard.
--
-- Files, with paths from the root of the repository:
-- - Prelude: shared names; Python's `str` is a list of code points, written `codes "…"`.
-- - Errors, Result: errors/catalog.py; a call that may raise is a `Result`.
-- - Json: JSON values and `json.dumps`. Regex: the part of `re` that the program uses.
-- - ShaEquiv: storage/sha_equiv.py. Rule is about the comparison, Boundary about validation.
-- - Sanitize: storage/sanitize.py. Screening: storage/screening.py.
-- - Store: storage/postgres.py. Rows has the table and its queries, Insert the INSERT with its two
--   unique indexes, Boundary `_boundary_meta` and `_split_meta`, Prepare the part of `_append` before
--   the connection (with storage/idempotency.py), Append the replay test, the attempts and the
--   read-back, Reads `memory_get` and `memory_history`. Screened follows a flagged write to a read.
--   Listing has `memory_list_page` and Search `memory_search` with `_rrf_fuse`.
-- - Health: `coord_health` of storage/postgres.py: counts, stale entries, tainted lineage,
--   claims to verify, each list cut at its limit.
-- - GateCache: storage/gate_cache.py. Profiles: storage/profiles.py.
-- - Gate: storage/gate.py. State has the gate's tables, Preflight `preflight`, step by step, and Write
--   a write behind the gate (`memory_save`, `memory_delete`). Refs has `extract_refs` and the scan for
--   structured conflicts, Skills `skill_define` and when a skill escalates, Intent `intent_open`: its
--   candidates, its decision and what it registers, Efficacy the log of efficacy events and the closing
--   of outcomes.
-- - Gate.Awaken: storage/awaken.py.
-- - Phi: storage/phi.py. Reconcile: storage/reconcile.py. Triggers: storage/triggers.py.
-- - Retrieval: storage/retrieval.py.
--
-- State and interleaving. The table is a list of rows, the newest first. Other writers are lists of rows
-- to insert, given for each attempt: before the statement sees the table, while it runs, and before the
-- read-back (`Turn`). The INSERT computes its revision on what it saw, and its unique indexes are checked
-- against what is committed. The gate's state is a record of its tables, passed along.
--
-- Bounds. `_append` makes three attempts, which is the recursion of `attempts`; the climb over
-- ancestors has as fuel a bound on its rounds, which is enough however the references run; the
-- read-back reads fifty revisions, a token lives 900 seconds, a trigger has at most 100 nodes at depth
-- 8 at most. Other recursion is on the structure of a value or a text.
--
-- Parameters. The embedder, GitHub's answers, `rfc8785`, SHA-256, `json_logic`, the clock, `uuid4`,
-- the printing of floats, the scores of a search, the reasoning tier, the expired dependencies of a
-- write, the collation of keys, base64, the vector index, ILIKE, `fromisoformat` and the patterns for
-- references are arguments of the definitions that use them. Where a theorem
-- speaks of the largest score, `<` on scores is taken to be a strict weak order, as it is on floats
-- without NaN.
--
-- Not modelled: the text of messages and summaries, the presentation of a row, retries after a lost
-- connection, the reports of `coord_health` on duplicates, collisions and scepticism, the stale-pin
-- advisory, sessions, artifacts, curation, the log of matches, the value of the monthly rollup,
-- telemetry, the server and the dashboard. Event ids are texts, where the column
-- is a uuid; letters beyond ASCII are not folded to lower case; a session id or a repository in `meta`
-- that is no text is taken as absent; `int` reads ASCII digits only.
pub mod Prelude
pub mod Errors
pub mod Result
pub mod ShaEquiv
pub mod Json
pub mod Regex
pub mod Screening
pub mod Sanitize
pub mod Store
pub mod Health
pub mod GateCache
pub mod Reconcile
pub mod Triggers
pub mod Gate
pub mod Retrieval
pub mod Profiles
pub mod Phi
