-- ===== src/Store/Insert.antt =====
-- The INSERT of one row: its revision is computed from what the statement sees, and the two unique
-- indexes are checked against what is committed when the row lands.
pub mod Laws
use mcp_assist_memory.Prelude.{
  ℕ, suc, ◌+◌, Text, codes, Bool, true, false, not, Option, none, some, List, [], ◌∷◌, ◌&&◌, ◌||◌,
  ◌==◌, text_eq, mem_text, any, length, if◌then◌else◌,
}
use mcp_assist_memory.Store.Rows.{Draft, Row, Table, same_key, same_event, event_is, max_revision}

-- the CHECK constraint on `kind`
abbrev pub kinds : List Text
kinds =
    codes "note"
    ∷ codes "decision"
    ∷ codes "todo"
    ∷ codes "handoff"
    ∷ codes "config"
    ∷ codes "claim"
    ∷ codes "knowledge"
    ∷ []

-- the rows that a new row may not repeat: UNIQUE (namespace, key, revision), and
-- UNIQUE (namespace, actor, event_id) WHERE event_id IS NOT NULL
unfoldable pub repeats_revision : Row → Row → Bool
unfolding same_key
repeats_revision r s = same_key r.namespace r.key s && (s.revision == r.revision)

abbrev pub same_event_as : Row → Option Text → Row → Bool
same_event_as r none s = false
same_event_as r (some e) s = same_event r.namespace r.actor e s

unfoldable pub repeats_event : Row → Row → Bool
unfolding same_event
repeats_event r s = same_event_as r r.event_id s

pub data Landing : Type 0 where
  landed : Row → Landing
  check_violation : Landing
  unique_violation : Landing

-- The row that the statement would insert, on what it sees.
unfoldable pub new_row : ℕ → Draft → Table → Table → Row
new_row now d seen committed = record {
  draft = d;
  id = suc (length committed);
  revision = max_revision d.namespace d.key seen + 1;
  created_at = now;
}

unfoldable pub insert : ℕ → Draft → Table → Table → Landing
insert now d seen committed =
    let r = new_row now d seen committed in
    if not (mem_text d.kind kinds)
    then check_violation
    else if any (repeats_revision r) committed
    then unique_violation
    else if any (repeats_event r) committed
    then unique_violation
    else landed r

-- the table after an attempt
abbrev pub after_landing : Table → Landing → Table
after_landing t (landed r) = r ∷ t
after_landing t check_violation = t
after_landing t unique_violation = t

-- Other writers, one after another, each with its own row. A writer whose row is refused changes
-- nothing.
unfoldable pub others_write : ℕ → List Draft → Table → Table
unfolding insert
others_write now [] t = t
others_write now (d ∷ ds) t = others_write now ds (after_landing t (insert now d t t))
