-- ===== src/Store/Append.antt =====
-- The part of `_append` of storage/postgres.py on the table: the replay test, the attempts, and the
-- read-back before the acknowledgement. Other writers commit between the steps; a `Turn` lists
-- theirs. The attempts are `_MAX_RETRIES`, so the recursion on their number is the source's loop.
pub mod Laws
pub mod Acked
pub mod Alone
pub mod Replay
pub mod Fresh
use mcp_assist_memory.Prelude.{
  ℕ, zero, suc, Text, codes, Bool, true, false, not, Option, none, some, List, [], ◌∷◌, ◌&&◌, ◌||◌,
  ◌==◌, text_eq, find, if◌then◌else◌, String,
}
use mcp_assist_memory.Errors.{Code}
use mcp_assist_memory.Result.{Result, ok, err, raise}
use mcp_assist_memory.Json.{Json, bool, obj, end, field}
use mcp_assist_memory.Store.Rows.{Draft, Row, Table, seen_event, latest}
use mcp_assist_memory.Store.Insert.{
  Landing, landed, check_violation, unique_violation, insert, others_write,
}
use mcp_assist_memory.Store.Prepare.{Services, Request, Prepared, prepare, given}
use mcp_assist_memory.Store.Reads.{memory_history, history_limit}

pub data Status : Type 0 where
  plain_ok quarantined_write deduplicated_replay : Status

-- The acknowledgement: the row, and the fields that say what happened. The one-line summary is left
-- out.
pub record Ack : Type 0 where
  pub row : Row
  pub status : Status
  pub verified_persisted : Bool
  pub deduplicated : Bool
  pub screening_override : Bool
  pub feedback : Bool
  pub advisories : List String

abbrev pub max_retries : ℕ
max_retries = 3

-- `stored and fingerprint and stored != fingerprint`
abbrev pub conflicts : Option Text → Option Text → Bool
conflicts (some (c ∷ s)) (some (d ∷ t)) = not (text_eq (c ∷ s) (d ∷ t))
conflicts _ _ = false

-- `_dedup_entry`
unfoldable pub dedup_entry : Row → Ack
dedup_entry r = record {
  row = r;
  status = deduplicated_replay;
  verified_persisted = true;
  deduplicated = true;
  screening_override = false;
  feedback = false;
  advisories = [];
}

-- `_check_idem_conflict`, then `_dedup_entry`
unfoldable pub replay : Option Text → Row → Result Ack
unfolding dedup_entry
replay fingerprint r =
    if conflicts r.idem_fingerprint fingerprint
    then raise Code.idempotency_conflict
    else ok (dedup_entry r)

-- What is found for the event id of the write, if it has one.
unfoldable pub landed_event : Draft → Table → Option Row
landed_event d t = elim d.event_id [
  | some (c ∷ e) ↦ seen_event d.namespace d.actor (c ∷ e) t
  | _ ↦ none
]

abbrev pub same_hash : Option Text → Option Text → Bool
same_hash none none = true
same_hash (some a) (some b) = text_eq a b
same_hash _ _ = false

abbrev pub same_bool : Bool → Bool → Bool
same_bool true b = b
same_bool false b = not b

abbrev pub matches_row : Row → Option Row → Bool
matches_row r none = false
matches_row r (some h) =
    same_hash h.content_hash r.content_hash && same_bool h.tombstone r.tombstone

unfoldable pub read_back : Row → Table → Bool
unfolding find memory_history
read_back r t =
    matches_row r
      (find (λ h. h.revision == r.revision) (memory_history history_limit r.namespace r.key t))

abbrev flag : Bool → String → List String → List String
flag true name names = name ∷ names
flag false name names = names

-- The acknowledgement of a row that was read back.
unfoldable pub ack_of : Prepared → Row → Ack
ack_of p r = record {
  row = r;
  status = if p.draft.quarantined then quarantined_write else plain_ok;
  verified_persisted = true;
  deduplicated = false;
  screening_override = p.override;
  feedback = p.draft.quarantined;
  advisories =
      flag p.override "screening_override"
        (flag p.suppressed "origin_detail_suppressed_clinical" []);
}

-- What the other writers commit before a statement takes its snapshot, while it runs, and after it.
pub record Turn : Type 0 where
  pub before : List Draft
  pub during : List Draft
  pub behind : List Draft

abbrev pub alone : Turn
alone = record { before = []; during = []; behind = [] }

unfoldable pub verify : Prepared → Row → Table → Result Ack
unfolding ack_of
verify p r t = if read_back r t then ok (ack_of p r) else raise Code.write_verification_failed

-- After a unique violation: the winner of the event, or another attempt.
abbrev pub retry : (Table → Result Ack × Table) → Prepared → Table → Option Row → Result Ack × Table
retry rest p t (some existing) = (replay p.draft.idem_fingerprint existing, t)
retry rest p t none = rest t

-- What follows an INSERT, by how it ended; the last argument but one is the committed table.
abbrev pub settle :
    (Table → Result Ack × Table) → ℕ → List Draft → Prepared → Table → Landing → Result Ack × Table
settle rest now behind p t (landed r) =
    let after = others_write now behind (r ∷ t) in (verify p r after, after)
settle rest now behind p t check_violation = (raise Code.invalid_kind, t)
settle rest now behind p t unique_violation =
    let after = others_write now behind t in retry rest p after (landed_event p.draft after)

-- One attempt and those that are left after it; the turns are numbered by the attempts left.
unfoldable pub attempts : ℕ → (ℕ → ℕ) → (ℕ → Turn) → Prepared → Table → Result Ack × Table
attempts zero clock turns p t = (raise Code.write_conflict, t)
attempts (suc n) clock turns p t =
    let now = clock n in
    let seen = others_write now (turns n).before t in
    let committed = others_write now (turns n).during seen in
    settle (λ (x : Table). attempts n clock turns p x) now (turns n).behind p committed
      (insert now p.draft seen committed)

unfoldable pub store : (ℕ → ℕ) → (ℕ → Turn) → Prepared → Table → Result Ack × Table
store clock turns p t =
    retry (λ (x : Table). attempts max_retries clock turns p x) p t (landed_event p.draft t)

abbrev pub stored : (ℕ → ℕ) → (ℕ → Turn) → Result Prepared → Table → Result Ack × Table
stored clock turns (ok p) t = store clock turns p t
stored clock turns (err e) t = (err e, t)

unfoldable pub append : Services → (ℕ → ℕ) → (ℕ → Turn) → Request → Table → Result Ack × Table
append s clock turns q t = stored clock turns (prepare s q) t

abbrev kind_or_note : Option Row → Text
kind_or_note none = codes "note"
kind_or_note (some r) = r.kind

-- What `memory_delete` appends: a tombstone of the kind of the latest revision, without tags.
unfoldable pub tombstone_of : Request → Table → Request
tombstone_of q t = record {
  namespace = q.namespace;
  key = q.key;
  value = obj (field (codes "deleted") (bool true) end);
  kind = kind_or_note (latest q.namespace q.key t);
  tags = [];
  source_surface = q.source_surface;
  event_id = q.event_id;
  tombstone = true;
  meta = q.meta;
  actor = q.actor;
  salience = none;
  confidence = none;
  valid_until = none;
  embeddings = none;
  origin = codes "unknown";
  origin_detail = none;
  origin_model_id = none;
  origin_model_family = none;
  derived_from = [];
  tool = codes "memory_delete";
  role = q.role;
}

-- `memory_delete` in a namespace without a gate
unfoldable pub memory_delete :
    Services → (ℕ → ℕ) → (ℕ → Turn) → Request → Table → Result Ack × Table
unfolding tombstone_of
memory_delete s clock turns q t = append s clock turns (tombstone_of q t) t
